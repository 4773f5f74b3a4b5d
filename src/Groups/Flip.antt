-- ===== src/Groups/Flip.antt =====
-- The excluded epics of one group, and of all groups, under `toggle_group`.
use jira_execution_planner.Base.{
  ◌≡◌, refl, ap, ◌∙◌, Bool, true, false, not, Option, List, [], ◌∷◌, ◌++◌, map, arith, if_cases,
  if◌then◌else◌,
}
use jira_execution_planner.Base.Lists.{
  filter, includes, non_empty, All, Distinct, All-filter, All-append, Distinct-filter,
  includes-append, includes-filter, Distinct-snoc,
}
use jira_execution_planner.Base.Text.{Text, text_equality, text_beq, text_beq_iff, upper_key}
use jira_execution_planner.Groups.{Group, normalize_epic_keys}
use jira_execution_planner.Groups.Toggle.{is_target, toggled_keys, toggle_group}
use jira_execution_planner.Base.Upper.{upper_key-fixed}
use jira_execution_planner.Groups.Keys.{
  IsEpicKey, normalize_epic_keys-IsEpicKey, normalize_epic_keys-Distinct, unique-filter_of_keys,
  normalize-as_keys,
}

-- The two lists have the same length, and `R` relates their members one by one.
abbrev pub Pointwise : {A : Type 0} → (A → A → Type 0) → List A → List A → Type 0
Pointwise R [] [] = Unit
Pointwise R [] (y ∷ ys) = ⊥
Pointwise R (x ∷ xs) [] = ⊥
Pointwise R (x ∷ xs) (y ∷ ys) = R x y × Pointwise R xs ys

-- An epic counts as excluded, as ad hoc, in a group.
abbrev pub excludes : Text → Group → Bool
excludes k g = includes k (normalize_epic_keys g.excluded_capacity_epics)

abbrev pub has_ad_hoc : Text → Group → Bool
has_ad_hoc k g = includes k (normalize_epic_keys g.ad_hoc_capacity_epics)

-- A target group excludes `key` exactly if it did not, and other epics as before; nothing else
-- changes.
pub record Flipped (target key : Text) (g g' : Group) : Type 0 where
  pub others : is_target target g ≡ false → g' ≡ g
  pub flips :
      is_target target g ≡ true
      → (k : Text) → excludes k g' ≡ (if text_beq k key then not (excludes key g) else excludes k g)
  pub rest : record g' { excluded_capacity_epics = g.excluded_capacity_epics } ≡ g

toggled_of_keys :
    (key : Text) (keys : List Text)
    → All IsEpicKey keys
    → Distinct keys
    → toggled_keys key keys
      ≡ (if includes key keys then filter (λ k. not (text_beq k key)) keys else keys ++ key ∷ [])
unfolding toggled_keys
toggled_of_keys key keys h d = rw (unique-filter_of_keys keys h d) refl

toggled-IsEpicKey :
    (key : Text) (keys : List Text)
    → IsEpicKey key
    → All IsEpicKey keys
    → Distinct keys
    → All IsEpicKey (toggled_keys key keys) × Distinct (toggled_keys key keys)
toggled-IsEpicKey key keys i h d = rw (toggled_of_keys key keys h d) (
    if_cases (λ l. All IsEpicKey l × Distinct l) (includes key keys)
      (λ _. (
        All-filter IsEpicKey (λ k. not (text_beq k key)) keys h,
        Distinct-filter (λ k. not (text_beq k key)) keys d,
      ))
      (λ new. (All-append IsEpicKey keys (key ∷ []) h (i, tt), Distinct-snoc key keys new d)))

includes-toggled :
    (k key : Text) (keys : List Text)
    → All IsEpicKey keys
    → Distinct keys
    → includes k (toggled_keys key keys)
      ≡ (if text_beq k key then not (includes key keys) else includes k keys)
includes-toggled k key keys h d = ground (
  arith,
  toggled_of_keys key keys h d,
  includes-filter (λ j. not (text_beq j key)) k keys,
  includes-append k keys (key ∷ []),
  text_beq_iff k key,
  text_beq_iff key k,
)

pub toggle_group-Flipped :
    (target key : Text) (g : Group)
    → IsEpicKey key
    → Flipped target key g (toggle_group target key g)
unfolding toggle_group
toggle_group-Flipped target key g i =
    let keys = normalize_epic_keys g.excluded_capacity_epics in
    let h = normalize_epic_keys-IsEpicKey g.excluded_capacity_epics in
    let d = normalize_epic_keys-Distinct g.excluded_capacity_epics in
    let (h', d') = toggled-IsEpicKey key keys i h d in
    record {
      others = λ away. rw away refl;
      flips = λ here k. rw here (
          ap (includes k) (normalize-as_keys (toggled_keys key keys) h' d')
          ∙ includes-toggled k key keys h d);
      rest =
          if_cases {A = Group}
            (λ x. record x { excluded_capacity_epics = g.excluded_capacity_epics } ≡ g)
            (is_target target g) (λ _. refl) (λ _. refl);
    }

pub toggled-Flipped :
    (target key : Text) (groups : List Group)
    → IsEpicKey key
    → Pointwise (Flipped target key) groups (map (toggle_group target key) groups)
toggled-Flipped target key [] i = tt
toggled-Flipped target key (g ∷ groups) i =
    (toggle_group-Flipped target key g i, toggled-Flipped target key groups i)

pub upper_key-IsEpicKey :
    (v : Option Text) → non_empty (upper_key v) ≡ true → IsEpicKey (upper_key v)
upper_key-IsEpicKey v h = record { fixed = upper_key-fixed v; filled = h }
