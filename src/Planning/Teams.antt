-- ===== src/Planning/Teams.antt =====
-- frontend/src/teamSelectionUtils.mjs: the teams that a scope offers, and the selection cut down
-- to it. Team ids and names are strings or missing; `getTeamInfo` of the caller is a parameter.
pub mod Sanitize
pub mod Options
mod Tests
use jira_execution_planner.Base.{
  Bool, true, false, ◌&&◌, ◌||◌, not, Option, none, some, List, [], ◌∷◌, ◌++◌, map, ◌==◌,
  if◌then◌else◌,
}
use jira_execution_planner.Base.Lists.{filter, includes, unique, non_empty}
use jira_execution_planner.Base.Text.{Text, text, text_beq, text_equality, trim, trimmed, or_empty}
use jira_execution_planner.Base.Dict.{Dict, lookup, insert, is_there}

-- What a selection can be: an array of ids, one id, or `null` or `undefined`.
pub data TeamsValue : Type 0 where
  many : List Text → TeamsValue
  single : Text → TeamsValue
  absent : TeamsValue

abbrev pub all_id : Text
all_id = text "all"

abbrev pub all_only : List Text
all_only = all_id ∷ []

-- `value || fallback` of strings: the empty string is falsy.
abbrev pub or_text : Text → Text → Text
or_text [] fallback = fallback
or_text (c ∷ s) fallback = c ∷ s

unfoldable pub normalize_selected_teams : TeamsValue → List Text
normalize_selected_teams (many ids) = if non_empty ids then ids else all_only
normalize_selected_teams (single id) = if non_empty (trim id) then id ∷ [] else all_only
normalize_selected_teams absent = all_only

-- `left.length === right.length && left.every((id, index) => id === right[index])`
unfoldable pub ids_equal : List Text → List Text → Bool
ids_equal [] [] = true
ids_equal [] (y ∷ ys) = false
ids_equal (x ∷ xs) [] = false
ids_equal (x ∷ xs) (y ∷ ys) = text_beq x y && ids_equal xs ys

unfoldable pub selected_team_selections_equal : TeamsValue → TeamsValue → Bool
unfolding ids_equal normalize_selected_teams
selected_team_selections_equal left right =
    ids_equal (normalize_selected_teams left) (normalize_selected_teams right)

-- `new Set((ids || []).map(id => String(id || '').trim()).filter(Boolean))`
unfoldable pub id_set : List (Option Text) → List Text
id_set ids = unique (filter non_empty (map trimmed ids))

unfoldable pub sanitize_selected_teams_for_scope :
    TeamsValue → List (Option Text) → List (Option Text) → List Text
sanitize_selected_teams_for_scope selected active_group_team_ids available_team_ids =
    let normalized = normalize_selected_teams selected in
    let group_team_set = id_set active_group_team_ids in
    let available_team_set = id_set available_team_ids in
    let scoped_to_group = filter (λ id. includes id group_team_set) normalized in
    let scoped_to_sprint = filter (λ id. includes id available_team_set) scoped_to_group in
    if not (non_empty group_team_set)
    then all_only
    else if includes all_id normalized
    then all_only
    else if not (non_empty scoped_to_group)
    then all_only
    else if not (non_empty available_team_set)
    then all_only
    else if non_empty scoped_to_sprint
    then scoped_to_sprint
    else all_only

-- What `getTeamInfo(task) || {}` gives: either field may be missing.
pub record TeamInfo : Type 0 where
  pub id : Option Text
  pub name : Option Text

pub record TeamOption : Type 0 where
  pub id : Text
  pub name : Text

abbrev pub all_teams : TeamOption
all_teams = record { id = all_id; name = text "All Teams" }

-- The first name seen for each id, where it is not blank.
unfoldable pub task_names : Dict Text → List TeamInfo → Dict Text
task_names names [] = names
task_names names (team ∷ teams) =
    let id = trimmed team.id in
    let name = trimmed team.name in
    let add = non_empty id && not (is_there (lookup id names)) && non_empty name in
    task_names (if add then insert id name names else names) teams

unfoldable pub team_option : Dict Text → Dict Text → Text → TeamOption
team_option team_name_lookup names id = record {
  id = id;
  name =
      or_text
        (trim (
          or_text (or_empty (lookup id team_name_lookup))
            (or_text (or_empty (lookup id names)) id)))
        id;
}

-- The teams of the tasks, each once; a task with no team id counts for `unknown`.
unfoldable pub task_team : TeamInfo → TeamOption
task_team team =
    let id = or_text (trim (or_text (or_empty team.id) (text "unknown"))) (text "unknown") in
    record { id = id; name = or_text (trim (or_text (or_empty team.name) id)) id }

unfoldable pub task_teams : List Text → List TeamInfo → List TeamOption
task_teams seen [] = []
task_teams seen (team ∷ teams) =
    let option = task_team team in
    let old = task_teams seen teams in
    let new = option ∷ task_teams (option.id ∷ seen) teams in
    if includes option.id seen then old else new

module _ {ℓ} {Task : Type ℓ} (get_team_info : Task → TeamInfo) where
  unfoldable pub build_team_options_for_scope :
      List Task → List (Option Text) → Dict Text → List TeamOption
  build_team_options_for_scope capacity_tasks active_group_team_ids team_name_lookup =
      let configured = id_set active_group_team_ids in
      let names = task_names [] (map get_team_info capacity_tasks) in
      if non_empty configured
      then all_teams ∷ map (team_option team_name_lookup names) configured
      else all_teams ∷ task_teams [] (map get_team_info capacity_tasks)
