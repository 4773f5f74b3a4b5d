-- ===== src/Groups/NewId.antt =====
-- `buildGroupId`, `parseTeamIdList` and `mergeTeamCatalog` of
-- frontend/src/settings/groupConfigUtils.js. Upper and lower case are those of the ASCII letters.
use jira_execution_planner.Base.{
  ℕ, zero, suc, ◌+◌, ◌≤◌, ◌<◌, ◌≡◌, ◌≢◌, ◌⊎◌, refl, Bool, true, false, ◌&&◌, ◌||◌, not, Option,
  List, [], ◌∷◌, ◌++◌, map, nat_beq, leb, if◌then◌else◌, Bool-cases, inl, inr, arith,
}
use jira_execution_planner.Base.Lists.{
  length, filter, includes, includes-filter, length-filter-le, non_empty,
}
use jira_execution_planner.Base.Text.{
  Text, text, text_beq, text_beq_iff, text_equality, trim, lower, or_empty, decimal,
}
use jira_execution_planner.Base.Dict.{Dict, insert}
use jira_execution_planner.Base.Decimal.{decimal_inj}
use jira_execution_planner.Planning.Teams.{or_text}

-- a letter of `[a-z0-9]`
abbrev pub is_slug_unit : ℕ → Bool
is_slug_unit c = (leb 97 c && leb c 122) || (leb 48 c && leb c 57)

-- `.replace(/[^a-z0-9]+/g, '-')`; the first argument says that a run of other units goes on.
unfoldable pub dash_runs : Bool → Text → Text
dash_runs in_run [] = []
dash_runs in_run (c ∷ s) =
    let kept = c ∷ dash_runs false s in
    let run = dash_runs true s in if is_slug_unit c then kept else if in_run then run else 45 ∷ run

-- `.replace(/(^-|-$)/g, '')`
unfoldable pub drop_first_dash : Text → Text
drop_first_dash [] = []
drop_first_dash (c ∷ s) = if nat_beq c 45 then s else c ∷ s

unfoldable pub drop_last_dash : Text → Text
drop_last_dash [] = []
drop_last_dash (c ∷ []) = if nat_beq c 45 then [] else c ∷ []
drop_last_dash (c ∷ d ∷ s) = c ∷ drop_last_dash (d ∷ s)

unfoldable pub slug : Option Text → Text
slug name =
    or_text
      (drop_last_dash
        (drop_first_dash (dash_runs false (lower (or_text (or_empty name) (text "group"))))))
      (text "group")

-- `${base}-${index}`
unfoldable pub numbered : Text → ℕ → Text
numbered base index = base ++ (text "-" ++ decimal index)

-- The loop of `buildGroupId`.
unfoldable pub next_free : ℕ → Text → Text → ℕ → List Text → Text
next_free zero base candidate index existing = candidate
next_free (suc fuel) base candidate index existing =
    let later = next_free fuel base (numbered base index) (index + 1) existing in
    if includes candidate existing then later else candidate

-- No candidate comes twice, so this fuel suffices.
unfoldable pub build_group_id : Option Text → List Text → Text
build_group_id name existing_ids =
    next_free (suc (length existing_ids)) (slug name) (slug name) 1 existing_ids

-- `String(raw || '').split(',')`
unfoldable pub split_commas : Text → List Text
split_commas [] = [] ∷ []
split_commas (c ∷ s) =
    let rest = split_commas s in
    if nat_beq c 44
    then [] ∷ rest
    else elim rest [ [] ↦ (c ∷ []) ∷ [] | part ∷ parts ↦ (c ∷ part) ∷ parts ]

unfoldable pub parse_team_id_list : Option Text → List Text
parse_team_id_list raw = filter non_empty (map trim (split_commas (or_empty raw)))

pub record CatalogTeam : Type 0 where
  pub id : Option Text
  pub name : Option Text

unfoldable pub merge_team_catalog : Dict CatalogTeam → List CatalogTeam → Dict CatalogTeam
merge_team_catalog catalog [] = catalog
merge_team_catalog catalog (team ∷ teams) =
    merge_team_catalog
      (if non_empty (or_empty team.id) && non_empty (or_empty team.name)
        then insert (or_empty team.id) team catalog
        else catalog)
      teams

append_cancel : (s t u : Text) → s ++ t ≡ s ++ u → t ≡ u
append_cancel [] t u h = h
append_cancel (c ∷ s) t u h = append_cancel s t u (cc)

append_self : (s t : Text) (c : ℕ) → (s ++ c ∷ t) ≢ s
append_self [] t c h = cc
append_self (d ∷ s) t c h = append_self s t c (cc)

numbered_inj : (base : Text) (i j : ℕ) → numbered base i ≡ numbered base j → i ≡ j
unfolding numbered
numbered_inj base i j h = decimal_inj i j (append_cancel (text "-") _ _ (append_cancel base _ _ h))

without : Text → List Text → List Text
without c ids = filter (λ x. not (text_beq x c)) ids

length-without :
    (c : Text) (ids : List Text) → includes c ids ≡ true → length (without c ids) < length ids
unfolding without
length-without c [] h = cc
length-without c (x ∷ ids) h =
    ground (arith, h, length-filter-le (λ y. not (text_beq y c)) ids, length-without c ids)

includes-without :
    (x c : Text) (ids : List Text)
    → x ≢ c
    → includes x ids ≡ true
    → includes x (without c ids) ≡ true
unfolding without
includes-without x c ids differs h = ground (
  arith,
  h,
  includes-filter (λ y. not (text_beq y c)) x ids,
  λ (e : text_beq x c ≡ true). differs ((text_beq_iff x c).0 e),
)

-- The loop finds a free candidate if the ids that later candidates can meet are fewer than the
-- rounds left.
next_free-is_free :
    (fuel : ℕ) (base candidate : Text) (index : ℕ) (existing left : List Text)
    → length left < fuel
    → ((i : ℕ) → index ≤ i → numbered base i ≢ candidate)
    → (includes candidate existing ≡ true → includes candidate left ≡ true)
    → ((i : ℕ)
        → index ≤ i
        → includes (numbered base i) existing ≡ true
        → includes (numbered base i) left ≡ true)
    → includes (next_free fuel base candidate index existing) existing ≡ false
unfolding next_free
next_free-is_free zero base candidate index existing left h fresh here later = absurd (omega arith)
next_free-is_free (suc fuel) base candidate index existing left h fresh here later =
    elim (Bool-cases (includes candidate existing)) [
      | inl taken ↦ rw taken (
          next_free-is_free fuel base (numbered base index) (index + 1) existing
            (without candidate left) (omega (arith, h, length-without candidate left (here taken)))
            (λ i le e. omega (arith, le, numbered_inj base i index e))
            (λ m.
              includes-without (numbered base index) candidate left (fresh index (omega arith))
                (later index (omega arith) m))
            (λ i le m.
              includes-without (numbered base i) candidate left (fresh i (omega (arith, le)))
                (later i (omega (arith, le)) m)))
      | inr free ↦ rw free free
    ]

numbered-ne-base : (base : Text) (i : ℕ) → numbered base i ≢ base
unfolding numbered
numbered-ne-base base i h = append_self base (decimal i) 45 h

-- The id is the candidate, or the base with a number.
next_free-shape :
    (fuel : ℕ) (base candidate : Text) (index : ℕ) (existing : List Text)
    → (next_free fuel base candidate index existing ≡ candidate)
      ⊎ ((i : ℕ) × (next_free fuel base candidate index existing ≡ numbered base i))
unfolding next_free
next_free-shape zero base candidate index existing = inl refl
next_free-shape (suc fuel) base candidate index existing =
    elim (Bool-cases (includes candidate existing)) [
      | inl taken ↦ rw taken (
          inr (elim (next_free-shape fuel base (numbered base index) (index + 1) existing) [
            | inl e ↦ (index, e)
            | inr (i, e) ↦ (i, e)
          ]))
      | inr free ↦ rw free (inl refl)
    ]

-- The loop ends with an id that no group has, whatever the name and the ids there are: the slug
-- of the name, or the slug with a number.
pub build_group_id-is_free :
    (name : Option Text) (existing_ids : List Text)
    → (includes (build_group_id name existing_ids) existing_ids ≡ false)
      × ((build_group_id name existing_ids ≡ slug name)
          ⊎ ((i : ℕ) × (build_group_id name existing_ids ≡ numbered (slug name) i)))
unfolding build_group_id
build_group_id-is_free name existing_ids = (
  next_free-is_free (suc (length existing_ids)) (slug name) (slug name) 1 existing_ids existing_ids
      (omega arith) (λ i le. numbered-ne-base (slug name) i) (λ m. m) (λ i le m. m),
  next_free-shape (suc (length existing_ids)) (slug name) (slug name) 1 existing_ids,
)
