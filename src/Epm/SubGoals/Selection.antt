-- ===== src/Epm/SubGoals/Selection.antt =====
-- The selection of sub-goals that a click leaves.
use jira_execution_planner.Base.{
  ◌≡◌, refl, ◌<◌, Bool, true, false, not, List, [], ◌∷◌, arith, if◌then◌else◌, Bool-cases, inl, inr,
  if_cases, nat_beq,
}
use jira_execution_planner.Base.Lists.{
  All, filter, includes, includes-append, includes-filter, length, length-filter-le, non_empty,
  All-of_members,
}
use jira_execution_planner.Base.Text.{Text, text_beq, text_equality, text_beq_iff}
use jira_execution_planner.Epm.SubGoals.{next_selection, toggled, selected_or}

module _ {ℓ} {A : Type ℓ} where
  pub filter_cong :
      (p q : A → Bool) (xs : List A) → All (λ k. p k ≡ q k) xs → filter p xs ≡ filter q xs
  filter_cong p q [] h = refl
  filter_cong p q (x ∷ xs) h = rw (h.0, filter_cong p q xs h.1) refl

  pub whole_filter :
      (p : A → Bool) (xs : List A) → length (filter p xs) ≡ length xs → All (λ k. p k ≡ true) xs
  whole_filter p [] h = tt
  whole_filter p (x ∷ xs) h = elim (Bool-cases (p x)) [
    | inl t ↦ (t, whole_filter p xs (ground arith))
    | inr f ↦ absurd (ground (arith, length-filter-le p xs))
  ]

  pub filter-none : (p : A → Bool) (xs : List A) → All (λ k. p k ≡ false) xs → filter p xs ≡ []
  filter-none p [] h = refl
  filter-none p (x ∷ xs) h = rw h.0 (filter-none p xs h.1)

-- A selection as the code stores it: sub-goals in the order of the saved ones, and none to stand
-- for all of them.
pub record IsSelection (saved selected : List Text) : Type 0 where
  pub in_order : filter (λ k. includes k selected) saved ≡ selected
  pub proper : length selected < length saved

-- What is shown under a selection
abbrev pub is_shown : List Text → List Text → Text → Bool
is_shown saved selected k = includes k (selected_or selected saved)

-- The sub-goals shown, but for the clicked one, which changes.
abbrev pub flipped : List Text → List Text → Text → Text → Bool
flipped saved selected c k =
    if text_beq k c then not (is_shown saved selected k) else is_shown saved selected k

abbrev pub is_all : List Text → List Text → Bool
is_all saved next = nat_beq (length next) (length saved)

includes-toggled :
    (c : Text) (set : List Text) (k : Text)
    → includes k (toggled c set) ≡ (if text_beq k c then not (includes k set) else includes k set)
includes-toggled c set k = elim (Bool-cases (text_beq k c)) [
  | inl e ↦ ground (
    arith,
    (text_beq_iff k c).0 e,
    text_beq_iff c c,
    includes-append k set (c ∷ []),
    includes-filter (λ j. not (text_beq j c)) k set,
  )
  | inr e ↦ ground (
    arith,
    text_beq_iff k c,
    text_beq_iff c k,
    includes-append k set (c ∷ []),
    includes-filter (λ j. not (text_beq j c)) k set,
  )
]

pub next-eq :
    (saved selected : List Text) (c : Text)
    → non_empty c ≡ true
    → includes c saved ≡ true
    → next_selection saved selected c ≡ (
        if is_all saved (filter (flipped saved selected c) saved)
        then []
        else filter (flipped saved selected c) saved)
unfolding next_selection
next-eq saved selected c n m =
    rw
      (
        n,
        m,
        filter_cong (λ k. includes k (toggled c (selected_or selected saved)))
            (flipped saved selected c) saved
            (All-of_members saved (λ k _. includes-toggled c (selected_or selected saved) k)),
      )
      refl

filter-IsSelection :
    (saved : List Text) (p : Text → Bool)
    → is_all saved (filter p saved) ≡ false
    → IsSelection saved (filter p saved)
filter-IsSelection saved p h = record {
  in_order =
      filter_cong _ p saved
        (All-of_members saved (λ k m. ground (arith, includes-filter p k saved, m)));
  proper = ground (arith, length-filter-le p saved);
}

pub length-pos : (c : Text) (saved : List Text) → includes c saved ≡ true → 0 < length saved
length-pos c [] m = absurd (ground arith)
length-pos c (k ∷ saved) m = omega arith

-- A click on a saved sub-goal leaves a selection.
pub next-IsSelection :
    (saved selected : List Text) (c : Text)
    → non_empty c ≡ true
    → includes c saved ≡ true
    → IsSelection saved (next_selection saved selected c)
next-IsSelection saved selected c n m = rw (next-eq saved selected c n m) (
    if_cases (IsSelection saved) (is_all saved (filter (flipped saved selected c) saved))
      (λ _. record {
        in_order = filter-none _ saved (All-of_members saved (λ k _. refl));
        proper = length-pos c saved m;
      })
      (filter-IsSelection saved (flipped saved selected c)))
