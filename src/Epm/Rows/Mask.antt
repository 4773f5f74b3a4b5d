-- ===== src/Epm/Rows/Mask.antt =====
-- The loop of the label prefix ends.
use jira_execution_planner.Base.{
  ℕ, zero, suc, ◌≤◌, ◌≡◌, refl, false, Option, [], ◌∷◌, arith, Bool-cases, inl, inr,
}
use jira_execution_planner.Base.Lists.{length}
use jira_execution_planner.Base.Text.{
  Text, trim, trimmed, trim_start, trim_end, trim_idem, or_empty,
}
use jira_execution_planner.Epm.Rows.{
  ends_with_star, but_last, drop_stars, normalize_epm_label_prefix_mask,
}

length-trim_start-le : (s : Text) → length (trim_start s) ≤ length s
unfolding trim_start
length-trim_start-le [] = omega arith
length-trim_start-le (c ∷ s) = ground (arith, length-trim_start-le s)

length-trim_end-le : (s : Text) → length (trim_end s) ≤ length s
unfolding trim_end
length-trim_end-le [] = omega arith
length-trim_end-le (c ∷ s) = ground (arith, length-trim_end-le s)

length-trim-le : (s : Text) → length (trim s) ≤ length s
unfolding trim
length-trim-le s = omega (arith, length-trim_start-le s, length-trim_end-le (trim_start s))

length-but_last : (c : ℕ) (s : Text) → length (but_last (c ∷ s)) ≡ length s
length-but_last c [] = refl
length-but_last c (d ∷ s) = omega (arith, length-but_last d s)

-- Without fuel left, or without a star, the text is the result.
drop_stars-ends :
    (fuel : ℕ) (s : Text) → length s ≤ fuel → ends_with_star (drop_stars fuel s) ≡ false
unfolding drop_stars
drop_stars-ends zero [] h = refl
drop_stars-ends zero (c ∷ s) h = absurd (omega arith)
drop_stars-ends (suc fuel) [] h = refl
drop_stars-ends (suc fuel) (c ∷ s) h = elim (Bool-cases (ends_with_star (c ∷ s))) [
  | inl star ↦ rw star (
      drop_stars-ends fuel (trim (but_last (c ∷ s)))
        (omega (arith, length-trim-le (but_last (c ∷ s)), length-but_last c s, h)))
  | inr no_star ↦ rw no_star no_star
]

drop_stars-trim : (fuel : ℕ) (s : Text) → trim s ≡ s → trim (drop_stars fuel s) ≡ drop_stars fuel s
unfolding drop_stars
drop_stars-trim zero s h = h
drop_stars-trim (suc fuel) s h = elim (Bool-cases (ends_with_star s)) [
  | inl star ↦ rw star (drop_stars-trim fuel (trim (but_last s)) (trim_idem (but_last s)))
  | inr no_star ↦ rw no_star h
]

-- The loop ends within as many rounds as the text has units: what it leaves does not end in a star
-- and has no white space around it.
pub normalize_epm_label_prefix_mask-ends :
    (value : Option Text)
    → (ends_with_star (normalize_epm_label_prefix_mask value) ≡ false)
      × (trim (normalize_epm_label_prefix_mask value) ≡ normalize_epm_label_prefix_mask value)
unfolding normalize_epm_label_prefix_mask
normalize_epm_label_prefix_mask-ends value = (
  drop_stars-ends (length (trimmed value)) (trimmed value) (omega arith),
  drop_stars-trim (length (trimmed value)) (trimmed value)
      (unfold trimmed in trim_idem (or_empty value)),
)
