-- ===== src/Backlog/Tests.antt =====
-- Epics with blank, nested and named sprints.
use jira_execution_planner.Base.{◌≡◌, refl, Option, none, some, List, [], ◌∷◌, true}
use jira_execution_planner.Base.Lists.{filter, length, unique_from}
use jira_execution_planner.Base.Text.{Text, text, text_beq, trim, trimmed, lower}
use jira_execution_planner.PriorityScheme.{starts_with, text_includes}
use jira_execution_planner.Backlog.{
  SprintFields, BacklogEpic, SprintValue, missing, several, sprint_object, sprint_text,
  sprint_number, no_values, value_then, push_sprint_token, leading_digits, matched_id,
  collect_sprint_tokens, collect_fields, get_issue_sprint_tokens, issue_matches_selected_sprint,
  epic_has_explicitly_empty_sprint_value, epic_has_selected_sprint_label,
  epic_matches_selected_sprint, filter_explicit_backlog_epics,
}
use jira_execution_planner.Backlog.Kept.{is_backlog, filter_explicit_backlog_epics_lem}

program : Unit {0}
unfolding text_beq trim trimmed lower unique_from starts_with text_includes push_sprint_token
    leading_digits matched_id collect_sprint_tokens collect_fields get_issue_sprint_tokens
    issue_matches_selected_sprint epic_has_explicitly_empty_sprint_value
    epic_has_selected_sprint_label epic_matches_selected_sprint filter_explicit_backlog_epics
program = tt

abbrev nothing : SprintFields
nothing = record { sprint_id = none; sprint_name = none; sprint = none }

abbrev epic : Option SprintValue → List (Option Text) → BacklogEpic
epic sprint labels = record {
  own = nothing;
  fields = record nothing { sprint = sprint };
  customfield_10101 = none;
  labels = labels;
}

abbrev nested : SprintValue
nested = several (
    value_then (sprint_text (text "Sprint[id=42,name=Q]"))
      (value_then (sprint_object (some (text "7")) none (some (text " "))) no_values))

tokens-nested :
    get_issue_sprint_tokens (epic (some nested) [])
    ≡ text "Sprint[id=42,name=Q]" ∷ text "42" ∷ text "7" ∷ []
unfolding program
tokens-nested = refl

matches-id : issue_matches_selected_sprint (epic (some nested) []) (some (text "42 ")) none ≡ true
unfolding program
matches-id = refl

matches-name :
    issue_matches_selected_sprint
      (epic (some (sprint_text (text "Team Q1 (a)"))) [])
      none
      (some (text "q1"))
    ≡ true
unfolding program
matches-name = refl

matches-label :
    epic_matches_selected_sprint (epic none (some (text " q1") ∷ [])) none (some (text "Q1")) ≡ true
unfolding program
matches-label = refl

abbrev epics : List BacklogEpic
epics =
    epic (some (several no_values)) []
    ∷ epic none []
    ∷ epic (some missing) (some (text "Q1") ∷ [])
    ∷ epic (some (sprint_number (text "3"))) []
    ∷ []

kept-one : length (filter_explicit_backlog_epics epics (some (text "9")) (some (text "q1"))) ≡ 1
unfolding program
kept-one = refl

filter_explicit_backlog_epics_example :
    filter_explicit_backlog_epics epics (some (text "9")) (some (text "q1"))
    ≡ filter (is_backlog (some (text "q1"))) epics
filter_explicit_backlog_epics_example =
    filter_explicit_backlog_epics_lem epics (some (text "9")) (some (text "q1"))
