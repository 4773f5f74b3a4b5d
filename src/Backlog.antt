-- ===== src/Backlog.antt =====
-- frontend/src/backlogAlertSprintUtils.mjs: the sprints that an issue names, and the epics of the
-- backlog.
pub mod Blank
pub mod Kept
mod Tests
use jira_execution_planner.Base.{
  ℕ, Bool, true, false, ◌&&◌, ◌||◌, not, Option, none, some, List, [], ◌∷◌, ◌++◌, map, leb,
  if◌then◌else◌,
}
use jira_execution_planner.Base.Lists.{filter, any, includes, non_empty, unique}
use jira_execution_planner.Base.Text.{Text, text, text_beq, text_equality, trim, trimmed, lower}
use jira_execution_planner.Base.Dict.{is_there}
use jira_execution_planner.PriorityScheme.{starts_with, text_includes}

-- A value in a sprint field. A value that is no string, such as a number, is given by its text.
mutual
  pub data SprintValue : Type 0 where
    missing : SprintValue
    several : SprintValues → SprintValue
    sprint_object : Option Text → Option Text → Option Text → SprintValue
    sprint_text : Text → SprintValue
    sprint_number : Text → SprintValue

  pub data SprintValues : Type 0 where
    no_values : SprintValues
    value_then : SprintValue → SprintValues → SprintValues

-- A field that is `none` is no property of the object.
pub record SprintFields : Type 0 where
  pub sprint_id : Option SprintValue
  pub sprint_name : Option SprintValue
  pub sprint : Option SprintValue

pub record BacklogEpic : Type 0 where
  pub own : SprintFields
  pub fields : SprintFields
  pub customfield_10101 : Option SprintValue
  pub labels : List (Option Text)

unfoldable pub push_sprint_token : Option Text → List Text
push_sprint_token value = if non_empty (trimmed value) then trimmed value ∷ [] else []

unfoldable pub leading_digits : Text → Text
leading_digits [] = []
leading_digits (c ∷ s) =
    let rest = leading_digits s in if leb 48 c && leb c 57 then c ∷ rest else []

abbrev pub drop_three : Text → Text
drop_three [] = []
drop_three (a ∷ []) = []
drop_three (a ∷ b ∷ []) = []
drop_three (a ∷ b ∷ c ∷ s) = s

-- `value.match(/id=([0-9]+)/)`, its group
unfoldable pub matched_id : Text → Option Text
matched_id [] = none
matched_id (c ∷ s) =
    let rest = matched_id s in
    let id = leading_digits (drop_three (c ∷ s)) in
    if starts_with (text "id=") (c ∷ s) && non_empty id then some id else rest

-- The tokens in the order in which they are pushed
unfoldable mutual
  pub collect_sprint_tokens : SprintValue → List Text
  collect_sprint_tokens missing = []
  collect_sprint_tokens (several values) = collect_all values
  collect_sprint_tokens (sprint_object id name state) =
      push_sprint_token id ++ push_sprint_token name ++ push_sprint_token state
  collect_sprint_tokens (sprint_text t) =
      push_sprint_token (some t) ++ push_sprint_token (matched_id t)
  collect_sprint_tokens (sprint_number t) = push_sprint_token (some t)

  pub collect_all : SprintValues → List Text
  collect_all no_values = []
  collect_all (value_then v vs) = collect_sprint_tokens v ++ collect_all vs

abbrev pub collect_field : Option SprintValue → List Text
collect_field none = []
collect_field (some v) = collect_sprint_tokens v

-- The fields in the order in which they are read
abbrev pub fields_of : BacklogEpic → List (Option SprintValue)
fields_of issue =
    issue.own.sprint_id ∷ issue.own.sprint_name ∷ issue.fields.sprint_id ∷ issue.fields.sprint_name
    ∷ issue.own.sprint ∷ issue.fields.sprint ∷ issue.customfield_10101 ∷ []

unfoldable pub collect_fields : List (Option SprintValue) → List Text
collect_fields [] = []
collect_fields (field ∷ fields) = collect_field field ++ collect_fields fields

unfoldable pub get_issue_sprint_tokens : BacklogEpic → List Text
get_issue_sprint_tokens issue = unique (collect_fields (fields_of issue))

abbrev pub token_matches : Text → Text → Bool
token_matches name token =
    let normalized = lower (trim token) in
    non_empty normalized
    && (text_beq normalized name || text_includes normalized name || text_includes name normalized)

unfoldable pub issue_matches_selected_sprint : BacklogEpic → Option Text → Option Text → Bool
issue_matches_selected_sprint issue selected_sprint selected_sprint_name =
    let tokens = get_issue_sprint_tokens issue in
    let selected_id = trimmed selected_sprint in
    let name = lower (trimmed selected_sprint_name) in
    if not (non_empty tokens)
    then false
    else if non_empty selected_id && includes selected_id tokens
    then true
    else non_empty name && any (token_matches name) tokens

unfoldable pub epic_has_explicitly_empty_sprint_value : BacklogEpic → Bool
epic_has_explicitly_empty_sprint_value epic =
    any (λ (field : Option SprintValue). is_there field) (fields_of epic)
    && not (non_empty (get_issue_sprint_tokens epic))

unfoldable pub epic_has_selected_sprint_label : BacklogEpic → Option Text → Bool
epic_has_selected_sprint_label epic selected_sprint_name =
    let target = lower (trimmed selected_sprint_name) in
    non_empty target && any (λ label. text_beq (lower (trimmed label)) target) epic.labels

unfoldable pub epic_matches_selected_sprint : BacklogEpic → Option Text → Option Text → Bool
epic_matches_selected_sprint epic selected_sprint selected_sprint_name =
    issue_matches_selected_sprint epic selected_sprint selected_sprint_name
    || epic_has_selected_sprint_label epic selected_sprint_name

unfoldable pub filter_explicit_backlog_epics :
    List BacklogEpic → Option Text → Option Text → List BacklogEpic
filter_explicit_backlog_epics epics selected_sprint selected_sprint_name =
    filter
      (λ epic.
        not (epic_matches_selected_sprint epic selected_sprint selected_sprint_name)
        && epic_has_explicitly_empty_sprint_value epic)
      epics
