-- ===== src/FuturePlanning.antt =====
-- frontend/src/futurePlanningTeamUtils.mjs: the teams of an epic of a sprint to come. A set of
-- ids is a list without repetitions, or `none` where the argument is no Set.
pub mod Teams
pub mod Stories
pub mod Reasons
mod Tests
use jira_execution_planner.Base.{
  ℕ, Bool, true, false, ◌&&◌, ◌||◌, not, Option, none, some, List, [], ◌∷◌, map, ltb, if◌then◌else◌,
}
use jira_execution_planner.Base.Lists.{filter, any, includes, length, non_empty}
use jira_execution_planner.Base.Text.{
  Text, text, text_beq, text_equality, trim, trimmed, lower, or_empty,
}
use jira_execution_planner.Base.Dict.{Dict, lookup}
use jira_execution_planner.Planning.Teams.{or_text}

pub record EpicTeam : Type 0 where
  pub id : Option Text
  pub name : Option Text
  pub display_name : Option Text

pub record PlannedEpic : Type 0 where
  pub team_name : Option Text
  pub team_id : Option Text
  pub team : Option EpicTeam
  pub labels : List (Option Text)

pub record PlannedTeam : Type 0 where
  pub id : Text
  pub name : Text

-- `teamNameById`: a Map, an object, or something else
pub data TeamNames : Type 0 where
  map_names : Dict (Option Text) → TeamNames
  object_names : Dict (Option Text) → TeamNames
  no_names : TeamNames

-- `normalizeLabel`
unfoldable pub normalize_label : Option Text → Text
normalize_label value = lower (trimmed value)

unfoldable pub get_epic_labels : PlannedEpic → List Text
get_epic_labels epic = filter non_empty (map normalize_label epic.labels)

abbrev pub only_member : List Text → Text
only_member [] = []
only_member (id ∷ []) = trim id
only_member (id ∷ other ∷ ids) = []

unfoldable pub get_single_selected_team_id : Option (List Text) → Text
get_single_selected_team_id none = []
get_single_selected_team_id (some ids) = only_member ids

abbrev pub name_of_team : Option EpicTeam → Text
name_of_team none = []
name_of_team (some t) = or_text (or_empty t.name) (or_empty t.display_name)

abbrev pub id_of_team : Option EpicTeam → Text
id_of_team none = []
id_of_team (some t) = or_empty t.id

unfoldable pub get_raw_epic_team_info : PlannedEpic → PlannedTeam
get_raw_epic_team_info epic =
    let team_name =
      or_text (or_empty epic.team_name) (or_text (name_of_team epic.team) (text "Unknown Team")) in
    record {
      id = or_text (or_empty epic.team_id) (or_text (id_of_team epic.team) team_name);
      name = team_name;
    }

-- The entries whose label the epic has; an empty list of labels matches none.
unfoldable pub matched_ids : List Text → Dict (Option Text) → List Text
matched_ids labels [] = []
matched_ids labels ((team_id, label) ∷ entries) =
    let rest = matched_ids labels entries in
    if non_empty team_id && includes (normalize_label label) labels
    then trim team_id ∷ rest
    else rest

unfoldable pub get_matched_planning_team_ids : PlannedEpic → Dict (Option Text) → List Text
get_matched_planning_team_ids epic team_labels =
    filter non_empty (matched_ids (get_epic_labels epic) team_labels)

abbrev pub resolved_name : Option (Text → Option Text) → Text → Text
resolved_name none id = id
resolved_name (some resolve) id = trimmed (resolve id)

-- `lookupTeamName` of an id that is trimmed and not empty
unfoldable pub lookup_team_name : TeamNames → Option (Text → Option Text) → Text → Text
lookup_team_name no_names resolve id = resolved_name resolve id
lookup_team_name (map_names names) resolve id = elim (lookup id names) [
  | none ↦ resolved_name resolve id
  | some name ↦ trimmed name
]
lookup_team_name (object_names names) resolve id = elim (lookup id names) [
  | none ↦ resolved_name resolve id
  | some name ↦ if non_empty (or_empty name) then trimmed name else resolved_name resolve id
]

-- `selectedTeamSet.size > 1` and its `filter`
abbrev pub visible_ids : Option (List Text) → List Text → List Text
visible_ids none matched = matched
visible_ids (some ids) matched =
    if ltb 1 (length ids) then filter (λ id. includes id ids) matched else matched

-- The last three arguments are `fallbackSelectedTeamName`, `teamNameById` and `resolveTeamName`.
module _ (fallback : Text) (names : TeamNames) (resolve : Option (Text → Option Text)) where
  unfoldable pub selected_team : Text → PlannedTeam
  selected_team id =
      let name = lookup_team_name names resolve id in
      record {
        id = id;
        name = if non_empty name && not (text_beq name id) then name else or_text fallback id;
      }

  unfoldable pub matched_team : Text → PlannedTeam
  matched_team id = record { id = id; name = or_text (lookup_team_name names resolve id) id }

  unfoldable pub get_future_planning_epic_team_infos :
      PlannedEpic → Option (List Text) → Dict (Option Text) → List PlannedTeam
  get_future_planning_epic_team_infos epic selected team_labels =
      let single = get_single_selected_team_id selected in
      let visible = visible_ids selected (get_matched_planning_team_ids epic team_labels) in
      if non_empty single
      then selected_team single ∷ []
      else if non_empty visible
      then map matched_team visible
      else get_raw_epic_team_info epic ∷ []

  unfoldable pub get_future_planning_epic_team_info :
      PlannedEpic → Option (List Text) → Dict (Option Text) → PlannedTeam
  get_future_planning_epic_team_info epic selected team_labels =
      elim (get_future_planning_epic_team_infos epic selected team_labels) [
        | [] ↦ get_raw_epic_team_info epic
        | team ∷ teams ↦ team
      ]

abbrev pub label_of : Dict (Option Text) → Text → Text
label_of team_labels id = elim (lookup id team_labels) [ none ↦ [] | some label ↦ or_empty label ]

unfoldable pub get_future_planning_expected_team_label :
    PlannedEpic → Option (List Text) → Dict (Option Text) → Text
get_future_planning_expected_team_label epic selected team_labels =
    let single = get_single_selected_team_id selected in
    let raw = get_raw_epic_team_info epic in
    let of_first : Text = elim (get_matched_planning_team_ids epic team_labels) [
      | [] ↦ []
      | id ∷ ids ↦ trim (label_of team_labels id)
    ] in
    if non_empty single
    then trim (label_of team_labels single)
    else if non_empty raw.id && non_empty (label_of team_labels raw.id)
    then trim (label_of team_labels raw.id)
    else of_first

unfoldable pub epic_matches_future_planning_team_selection :
    PlannedEpic → Bool → Option (List Text) → Dict (Option Text) → Bool
epic_matches_future_planning_team_selection epic is_all_teams_selected none team_labels =
    is_all_teams_selected
epic_matches_future_planning_team_selection epic is_all_teams_selected (some ids) team_labels =
    let raw = get_raw_epic_team_info epic in
    is_all_teams_selected
    || (non_empty ids
        && ((non_empty raw.id && includes raw.id ids)
            || any (λ id. includes id ids) (get_matched_planning_team_ids epic team_labels)))
