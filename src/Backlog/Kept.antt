-- ===== src/Backlog/Kept.antt =====
-- Which epics the filter for the backlog keeps.
use jira_execution_planner.Base.{
  ◌≡◌, refl, Bool, ◌&&◌, not, Option, List, [], ◌∷◌, arith, Bool-cases, inl, inr,
}
use jira_execution_planner.Base.Lists.{all, any, filter, non_empty, unique, unique_from}
use jira_execution_planner.Base.Text.{Text, text_equality}
use jira_execution_planner.Base.Dict.{is_there}
use jira_execution_planner.Backlog.{
  SprintValue, BacklogEpic, fields_of, collect_fields, get_issue_sprint_tokens,
  issue_matches_selected_sprint, epic_has_explicitly_empty_sprint_value,
  epic_has_selected_sprint_label, epic_matches_selected_sprint, filter_explicit_backlog_epics,
}
use jira_execution_planner.Backlog.Blank.{is_blank_field, collect_fields-blank}

-- The epic has a sprint field, no field says anything, and no label is the sprint's name.
abbrev pub is_backlog : Option Text → BacklogEpic → Bool
is_backlog selected_sprint_name epic =
    any (λ (field : Option SprintValue). is_there field) (fields_of epic)
    && all is_blank_field (fields_of epic)
    && not (epic_has_selected_sprint_label epic selected_sprint_name)

unique-non_empty : (xs : List Text) → non_empty (unique xs) ≡ non_empty xs
unfolding unique_from
unique-non_empty [] = refl
unique-non_empty (x ∷ xs) = refl

tokens-blank :
    (epic : BacklogEpic)
    → non_empty (get_issue_sprint_tokens epic) ≡ not (all is_blank_field (fields_of epic))
unfolding get_issue_sprint_tokens
tokens-blank epic =
    rw (unique-non_empty (collect_fields (fields_of epic))) (collect_fields-blank (fields_of epic))

is_backlog_lem :
    (selected_sprint selected_sprint_name : Option Text) (epic : BacklogEpic)
    → (not (epic_matches_selected_sprint epic selected_sprint selected_sprint_name)
        && epic_has_explicitly_empty_sprint_value epic)
      ≡ is_backlog selected_sprint_name epic
unfolding epic_matches_selected_sprint epic_has_explicitly_empty_sprint_value
    issue_matches_selected_sprint
is_backlog_lem selected_sprint selected_sprint_name epic =
    elim (Bool-cases (non_empty (get_issue_sprint_tokens epic))) [
      | inl h ↦ ground (arith, h, tokens-blank epic)
      | inr h ↦ ground (arith, h, tokens-blank epic)
    ]

filter-ext {ℓ} :
    {A : Type ℓ} (p q : A → Bool)
    → ((a : A) → p a ≡ q a)
    → (xs : List A) → filter p xs ≡ filter q xs
filter-ext p q h [] = refl
filter-ext p q h (x ∷ xs) = rw (h x, filter-ext p q h xs) refl

-- The epics kept for the backlog are, in their order, those that have a sprint field, whose sprint
-- fields hold nothing but white space, however they are nested, and that have no label equal to the
-- name of the selected sprint; the tests of the selected sprint on the tokens decide nothing more.
pub filter_explicit_backlog_epics_lem :
    (epics : List BacklogEpic) (selected_sprint selected_sprint_name : Option Text)
    → filter_explicit_backlog_epics epics selected_sprint selected_sprint_name
      ≡ filter (is_backlog selected_sprint_name) epics
unfolding filter_explicit_backlog_epics
filter_explicit_backlog_epics_lem epics selected_sprint selected_sprint_name =
    filter-ext _ _ (is_backlog_lem selected_sprint selected_sprint_name) epics
