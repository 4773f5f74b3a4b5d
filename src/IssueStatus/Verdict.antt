-- ===== src/IssueStatus/Verdict.antt =====
-- The summary of a batch: its counts and its verdict.
use jira_execution_planner.Base.{
  ℕ, suc, ◌+◌, ◌≡◌, refl, Bool, not, Option, List, [], ◌∷◌, arith, Bool-cases, if_cases, inl, inr,
  if◌then◌else◌, nat_beq,
}
use jira_execution_planner.Base.Lists.{filter, all, length}
use jira_execution_planner.Base.Text.{Text, text}
use jira_execution_planner.IssueStatus.Summary.{
  Verdict, success, partial, failure, is_success, count_results, summarize_results,
  summarize_transition_results,
}

module _ (done : Text) where
  count_results-left :
      (results : List (Option Text)) (s f : ℕ)
      → (count_results done results (s, f)).0 ≡ s + length (filter (is_success done) results)
  unfolding count_results
  count_results-left [] s f = omega arith
  count_results-left (result ∷ results) s f =
      if_cases
        (λ (c : ℕ × ℕ).
          (count_results done results c).0
          ≡ s + length (filter (is_success done) (result ∷ results)))
        (is_success done result) (λ h. rw h (omega (arith, count_results-left results (suc s) f)))
        (λ h. rw h (omega (arith, count_results-left results s (suc f))))

  count_results-right :
      (results : List (Option Text)) (s f : ℕ)
      → (count_results done results (s, f)).1
        ≡ f + length (filter (λ r. not (is_success done r)) results)
  unfolding count_results
  count_results-right [] s f = omega arith
  count_results-right (result ∷ results) s f =
      if_cases
        (λ (c : ℕ × ℕ).
          (count_results done results c).1
          ≡ f + length (filter (λ r. not (is_success done r)) (result ∷ results)))
        (is_success done result) (λ h. rw h (omega (arith, count_results-right results (suc s) f)))
        (λ h. rw h (omega (arith, count_results-right results s (suc f))))

none-filtered {ℓ} :
    {A : Type ℓ} (p : A → Bool) (xs : List A)
    → nat_beq (length (filter p xs)) 0 ≡ all (λ x. not (p x)) xs
none-filtered p [] = refl
none-filtered p (x ∷ xs) = elim (Bool-cases (p x)) [
  | inl h ↦ rw h (ground arith)
  | inr h ↦ rw h (none-filtered p xs)
]

length-split {ℓ} :
    {A : Type ℓ} (p : A → Bool) (xs : List A)
    → length xs ≡ length (filter p xs) + length (filter (λ x. not (p x)) xs)
length-split p [] = refl
length-split p (x ∷ xs) = elim (Bool-cases (p x)) [
  | inl h ↦ rw h (omega (arith, length-split p xs))
  | inr h ↦ rw h (omega (arith, length-split p xs))
]

-- The independent description of the verdict
abbrev pub verdict_of : (Option Text → Bool) → List (Option Text) → Verdict
verdict_of p results =
    if all (λ r. not (p r)) results then failure else if all p results then success else partial

all-not-not {ℓ} :
    {A : Type ℓ} (p : A → Bool) (xs : List A) → all (λ x. not (not (p x))) xs ≡ all p xs
all-not-not p [] = refl
all-not-not p (x ∷ xs) = ground (arith, all-not-not p xs)

pub summarize_results_lem :
    (done : Text) (results : List (Option Text))
    → let summary = summarize_results done results in
      (summary.total ≡ length results)
      × (summary.succeeded ≡ length (filter (is_success done) results))
      × (summary.failed ≡ length (filter (λ r. not (is_success done r)) results))
      × (summary.result ≡ verdict_of (is_success done) results)
unfolding summarize_results
summarize_results_lem done results =
    let results_of = count_results done results (0, 0) in
    let left : results_of.0 ≡ length (filter (is_success done) results) =
      omega (arith, count_results-left done results 0 0) in
    let right : results_of.1 ≡ length (filter (λ r. not (is_success done r)) results) =
      omega (arith, count_results-right done results 0 0) in
    (
      refl,
      left,
      right,
      rw
          (
            left,
            right,
            none-filtered (is_success done) results,
            none-filtered (λ r. not (is_success done r)) results,
            all-not-not (is_success done) results,
          )
          refl,
    )

-- The counts of the two kinds of results are those of the entries that succeeded and of the
-- others; the verdict is a failure if no entry succeeded (none at all included), a success if all
-- did, and partial otherwise.
pub summarize_transition_results_lem :
    (results : List (Option Text))
    → let summary = summarize_transition_results results in
      let p = is_success (text "already_in_status") in
      (summary.total ≡ summary.succeeded + summary.failed)
      × (summary.succeeded ≡ length (filter p results))
      × (summary.failed ≡ length (filter (λ r. not (p r)) results))
      × (summary.result ≡ verdict_of p results)
unfolding summarize_transition_results
summarize_transition_results_lem results =
    let (total, left, right, verdict) = summarize_results_lem (text "already_in_status") results in
    (
      omega
          (arith, total, left, right, length-split (is_success (text "already_in_status")) results),
      left,
      right,
      verdict,
    )
