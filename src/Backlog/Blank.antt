-- ===== src/Backlog/Blank.antt =====
-- A sprint value without tokens is blank.
use jira_execution_planner.Base.{
  ◌≡◌, refl, Bool, true, false, ◌&&◌, ◌||◌, not, Option, none, some, List, [], ◌∷◌, ◌++◌, arith,
  Bool-cases, inl, inr,
}
use jira_execution_planner.Base.Lists.{all, non_empty}
use jira_execution_planner.Base.Text.{Text, trim, trimmed, is_space, trim_start, trim_end}
use jira_execution_planner.PriorityScheme.{starts_with}
use jira_execution_planner.Backlog.{
  SprintValue, SprintValues, missing, several, sprint_object, sprint_text, sprint_number, no_values,
  value_then, push_sprint_token, matched_id, collect_sprint_tokens, collect_all, collect_fields,
}

-- Nothing but white space
abbrev pub is_blank_text : Option Text → Bool
is_blank_text value = not (non_empty (trimmed value))

unfoldable mutual
  pub is_blank : SprintValue → Bool
  is_blank missing = true
  is_blank (several values) = are_blank values
  is_blank (sprint_object id name state) =
      is_blank_text id && (is_blank_text name && is_blank_text state)
  is_blank (sprint_text t) = is_blank_text (some t)
  is_blank (sprint_number t) = is_blank_text (some t)

  pub are_blank : SprintValues → Bool
  are_blank no_values = true
  are_blank (value_then v vs) = is_blank v && are_blank vs

abbrev pub is_blank_field : Option SprintValue → Bool
is_blank_field none = true
is_blank_field (some v) = is_blank v

non_empty-append {ℓ} :
    {A : Type ℓ} (xs ys : List A) → non_empty (xs ++ ys) ≡ (non_empty xs || non_empty ys)
non_empty-append [] ys = refl
non_empty-append (x ∷ xs) ys = refl

blank-spaces : (s : Text) → non_empty (trim s) ≡ false → all is_space s ≡ true
unfolding trim trim_start trim_end
blank-spaces [] h = refl
blank-spaces (c ∷ s) h = elim (Bool-cases (is_space c)) [
  | inl e ↦ ground (arith, h, e, blank-spaces s)
  | inr e ↦ absurd (ground (arith, h, e))
]

spaces-unmatched : (s : Text) → all is_space s ≡ true → matched_id s ≡ none
unfolding matched_id starts_with is_space
spaces-unmatched [] h = refl
spaces-unmatched (c ∷ s) h = ground (arith, h, spaces-unmatched s)

push-blank : (value : Option Text) → non_empty (push_sprint_token value) ≡ not (is_blank_text value)
unfolding push_sprint_token
push-blank value = ground arith

-- A text in a field and the id in it
text-blank :
    (t : Text)
    → non_empty (push_sprint_token (some t) ++ push_sprint_token (matched_id t))
      ≡ not (is_blank_text (some t))
unfolding push_sprint_token trimmed trim
text-blank t = elim (Bool-cases (non_empty (trim t))) [
  | inl h ↦ rw h refl
  | inr h ↦ rw (h, spaces-unmatched t (blank-spaces t h)) refl
]

mutual
  unfolding collect_sprint_tokens is_blank

  collect-blank : (v : SprintValue) → non_empty (collect_sprint_tokens v) ≡ not (is_blank v)
  collect-blank missing = refl
  collect-blank (several values) = collect_all-blank values
  collect-blank (sprint_object id name state) = ground (
    arith,
    push-blank id,
    push-blank name,
    push-blank state,
    non_empty-append (push_sprint_token id) (push_sprint_token name ++ push_sprint_token state),
    non_empty-append (push_sprint_token name) (push_sprint_token state),
  )
  collect-blank (sprint_text t) = text-blank t
  collect-blank (sprint_number t) = push-blank (some t)

  collect_all-blank : (vs : SprintValues) → non_empty (collect_all vs) ≡ not (are_blank vs)
  collect_all-blank no_values = refl
  collect_all-blank (value_then v vs) = ground (
    arith,
    collect-blank v,
    collect_all-blank vs,
    non_empty-append (collect_sprint_tokens v) (collect_all vs),
  )

pub collect_fields-blank :
    (fields : List (Option SprintValue))
    → non_empty (collect_fields fields) ≡ not (all is_blank_field fields)
unfolding collect_fields
collect_fields-blank [] = refl
collect_fields-blank (none ∷ fields) = collect_fields-blank fields
collect_fields-blank (some v ∷ fields) = ground (
  arith,
  collect-blank v,
  collect_fields-blank fields,
  non_empty-append (collect_sprint_tokens v) (collect_fields fields),
)
