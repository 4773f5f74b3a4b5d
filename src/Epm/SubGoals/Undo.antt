-- ===== src/Epm/SubGoals/Undo.antt =====
-- A second click on the same sub-goal takes the first one back.
use jira_execution_planner.Base.{
  ◌≡◌, ◌≢◌, ◌⊎◌, refl, sym, ap, ◌∙◌, Bool, true, false, not, List, [], ◌∷◌, arith, if◌then◌else◌,
  Bool-cases, inl, inr,
}
use jira_execution_planner.Base.Lists.{
  All, All-map, Distinct, filter, includes, includes-filter, non_empty, All_of_includes,
  All-of_members, filter-eq_of_All,
}
use jira_execution_planner.Base.Text.{Text, text_beq, text_equality, text_beq_iff}
use jira_execution_planner.Epm.SubGoals.{next_selection, selected_or}
use jira_execution_planner.Epm.SubGoals.Selection.{
  IsSelection, filter_cong, whole_filter, filter-none, flipped, is_all, next-eq,
}

abbrev but : Text → List Text → List Text
but c saved = filter (λ k. not (text_beq k c)) saved

-- Of distinct texts, those equal to one of them.
filter-only :
    (c : Text) (saved : List Text)
    → Distinct saved
    → includes c saved ≡ true
    → filter (λ k. text_beq k c) saved ≡ c ∷ []
filter-only c [] d m = absurd (ground arith)
filter-only c (k ∷ saved) d m = elim (Bool-cases (text_beq k c)) [
  | inl e ↦
      let absent : All (λ j. text_beq j c ≡ false) saved =
        All-of_members saved
          (λ j h. ground (arith, (text_beq_iff k c).0 e, text_beq_iff j c, d.0)) in
      rw (e, filter-none (λ j. text_beq j c) saved absent)
        (ap (λ j. j ∷ []) ((text_beq_iff k c).0 e))
  | inr e ↦ rw e (filter-only c saved d.1 (ground arith))
]

filter-empty :
    (p : Text → Bool) (xs : List Text) → non_empty (filter p xs) ≡ false → All (λ k. p k ≡ false) xs
filter-empty p [] h = tt
filter-empty p (x ∷ xs) h = elim (Bool-cases (p x)) [
  | inl t ↦ absurd (ground arith)
  | inr f ↦ (f, filter-empty p xs (ground arith))
]

nil_of_empty : (xs : List Text) → non_empty xs ≡ false → xs ≡ []
nil_of_empty [] h = refl
nil_of_empty (x ∷ xs) h = absurd (ground arith)

selected_or-filled : (sel saved : List Text) → non_empty sel ≡ true → selected_or sel saved ≡ sel
selected_or-filled [] saved h = absurd (ground arith)
selected_or-filled (k ∷ sel) saved h = refl

module _ (saved : List Text) (c : Text) (n : non_empty c ≡ true) (m : includes c saved ≡ true) where
  but-not_all : is_all saved (but c saved) ≡ false
  but-not_all = elim (Bool-cases (is_all saved (but c saved))) [
    | inl h ↦
        let each = whole_filter (λ k. not (text_beq k c)) saved (ground arith) in
        absurd (
          ground (
            arith,
            All_of_includes (λ k. not (text_beq k c) ≡ true) c saved each m,
            text_beq_iff c c,
          ))
    | inr h ↦ h
  ]

  next-nil : next_selection saved [] c ≡ but c saved
  next-nil =
      next-eq saved [] c n m
      ∙ rw
          (
            filter_cong (flipped saved [] c) (λ k. not (text_beq k c)) saved
                (All-of_members saved (λ k h. ground (arith, h))),
            but-not_all,
          )
          refl

  -- After the selection of those that satisfy `p`
  next-filter :
      (p : Text → Bool)
      → non_empty (filter p saved) ≡ true
      → next_selection saved (filter p saved) c ≡ (
          if is_all saved (filter (λ k. if text_beq k c then not (p k) else p k) saved)
          then []
          else filter (λ k. if text_beq k c then not (p k) else p k) saved)
  next-filter p f =
      next-eq saved (filter p saved) c n m
      ∙ rw
          (filter_cong (flipped saved (filter p saved) c)
            (λ k. if text_beq k c then not (p k) else p k) saved
            (All-of_members saved (λ k h.
              ground (
                arith,
                h,
                includes-filter p k saved,
                selected_or-filled (filter p saved) saved f,
              ))))
          refl

  abbrev flip : List Text → List Text
  flip sel = filter (flipped saved sel c) saved

  -- Where the first click shows every sub-goal, all but the clicked one were selected.
  selected-but :
      (sel : List Text)
      → filter (λ k. includes k sel) saved ≡ sel
      → is_all saved (flip sel) ≡ true
      → sel ≡ but c saved
  selected-but [] s a =
      let each = whole_filter (flipped saved [] c) saved (ground arith) in
      absurd (
        ground (
          arith,
          All_of_includes (λ k. flipped saved [] c k ≡ true) c saved each m,
          text_beq_iff c c,
          m,
        ))
  selected-but (x ∷ sel) s a =
      let each = whole_filter (flipped saved (x ∷ sel) c) saved (ground arith) in
      sym s
      ∙ filter_cong (λ k. includes k (x ∷ sel)) (λ k. not (text_beq k c)) saved
          (All-map (λ k h. ground (arith, h)) saved each)

  -- Where it shows none, the clicked one was selected alone, or all were shown.
  selected-none :
      (sel : List Text)
      → Distinct saved
      → filter (λ k. includes k sel) saved ≡ sel
      → non_empty (flip sel) ≡ false
      → (sel ≡ []) ⊎ (sel ≡ c ∷ [])
  selected-none [] d s f = inl refl
  selected-none (x ∷ sel) d s f = inr (
      sym s
      ∙ filter_cong (λ k. includes k (x ∷ sel)) (λ k. text_beq k c) saved
          (All-map (λ k h. ground (arith, h)) saved
            (filter-empty (flipped saved (x ∷ sel) c) saved f))
      ∙ filter-only c saved d m)

  -- The second click after a first that leaves some but not all
  again :
      (sel : List Text)
      → IsSelection saved sel
      → (if is_all saved (
            filter
              (λ k. if text_beq k c then not (flipped saved sel c k) else flipped saved sel c k)
              saved)
          then []
          else filter
              (λ k. if text_beq k c then not (flipped saved sel c k) else flipped saved sel c k)
              saved)
        ≡ sel
  again [] s =
      rw
        (filter-eq_of_All
          (λ k. if text_beq k c then not (flipped saved [] c k) else flipped saved [] c k) saved
          (All-of_members saved (λ k h. ground (arith, h))))
        (ground arith)
  again (x ∷ sel) s =
      let p = s.proper in
      rw
        (
          filter_cong
              (λ k.
                if text_beq k c
                then not (flipped saved (x ∷ sel) c k)
                else flipped saved (x ∷ sel) c k)
              (λ k. includes k (x ∷ sel)) saved (All-of_members saved (λ k h. ground arith)),
          s.in_order,
        )
        (ground arith)

  pub undo :
      (sel : List Text)
      → Distinct saved
      → IsSelection saved sel
      → sel ≢ c ∷ []
      → next_selection saved (next_selection saved sel c) c ≡ sel
  undo sel d s alone = elim (Bool-cases (is_all saved (flip sel))) [
    | inl a ↦
        ap (λ r. next_selection saved r c) (next-eq saved sel c n m ∙ rw a refl)
        ∙ next-nil
        ∙ sym (selected-but sel s.in_order a)
    | inr a ↦ elim (Bool-cases (non_empty (flip sel))) [
      | inl f ↦
          ap (λ r. next_selection saved r c) (next-eq saved sel c n m ∙ rw a refl)
          ∙ next-filter (flipped saved sel c) f
          ∙ again sel s
      | inr f ↦ elim (selected-none sel d s.in_order f) [
        | inr e ↦ absurd (alone e)
        | inl e ↦
            let first : next_selection saved sel c ≡ sel =
              next-eq saved sel c n m ∙ rw a (nil_of_empty (flip sel) f) ∙ sym e in
            ap (λ r. next_selection saved r c) first ∙ first
      ]
    ]
  ]
