-- ===== src/Planning/Selection.antt =====
-- frontend/src/eng/planningSelectionActions.js: the map of selected tasks, the bulk actions on
-- it, and the handlers of the planning view. A handler reads the state of the render that made
-- it; here each action reads the state that the action before it left. `normalizeStatus` and
-- `normalizeSelectedTeams` of the caller are parameters.
pub mod Maps
pub mod Handlers
pub mod Stored
pub mod Sequence
pub mod Hydrate
mod Tests
use jira_execution_planner.Base.{
  Bool, true, false, ◌&&◌, ◌||◌, not, Option, none, some, List, [], ◌∷◌, ◌++◌, map, ◌==◌,
  if◌then◌else◌,
}
use jira_execution_planner.Base.Lists.{filter, includes, unique, non_empty, all}
use jira_execution_planner.Base.Text.{Text, text, text_beq, text_equality, trim, trimmed}
use jira_execution_planner.Base.Dict.{Dict, lookup, insert, remove, keys}
use jira_execution_planner.Base.Sort.{sort}
use jira_execution_planner.Planning.Teams.{
  TeamsValue, many, TeamOption, all_id, sanitize_selected_teams_for_scope,
}
use jira_execution_planner.Planning.State.{
  SelectionMode, manual, default_all, mode_text, StoredState, PlanningState, LocalStorage,
  save_planning_state, resolve_planning_selection_state, nothing_stored,
}

-- What the actions read of a task. A missing key is the empty text.
pub record PlanningTask : Type 0 where
  pub key : Text
  pub status : Option Text

abbrev pub truthy : Option Bool → Bool
truthy none = false
truthy (some b) = b

-- `selectedTasks[key]` as a test
unfoldable pub is_selected : Text → Dict Bool → Bool
is_selected key selected = truthy (lookup key selected)

unfoldable pub add_keys : Dict Bool → List (Option Text) → Dict Bool
add_keys next [] = next
add_keys next (key ∷ rest) =
    let k = trimmed key in add_keys (if non_empty k then insert k true next else next) rest

unfoldable pub selected_task_map_from_keys : List (Option Text) → Dict Bool
unfolding add_keys
selected_task_map_from_keys keys = add_keys [] keys

-- A missing set of valid keys admits every key.
abbrev pub admits : Option (List Text) → Text → Bool
admits none key = true
admits (some valid) key = includes key valid

unfoldable pub selected_task_keys_from_map : Dict Bool → Option (List Text) → List Text
selected_task_keys_from_map selected valid =
    sort (filter (λ key. is_selected key selected && admits valid key) (keys selected))

unfoldable pub toggle_task_selection_map : Dict Bool → Text → Dict Bool
toggle_task_selection_map selected key =
    if is_selected key selected then remove key selected else insert key true selected

unfoldable pub add_visible : Dict Bool → List PlanningTask → Dict Bool
add_visible next [] = next
add_visible next (task ∷ tasks) =
    add_visible (if non_empty task.key then insert task.key true next else next) tasks

unfoldable pub select_all_visible_planning_tasks_map : List PlanningTask → Dict Bool
unfolding add_visible
select_all_visible_planning_tasks_map tasks = add_visible [] tasks

-- `delete` or set, for each of the tasks
unfoldable pub set_each : Bool → Dict Bool → List PlanningTask → Dict Bool
set_each drop next [] = next
set_each drop next (task ∷ tasks) =
    set_each drop (if drop then remove task.key next else insert task.key true next) tasks

module _ (normalize_status : Option Text → Text) where
  -- `allowed.has(normalizeStatus(task.fields.status?.name))`
  unfoldable pub is_allowed : List Text → PlanningTask → Bool
  is_allowed statuses task =
      includes (normalize_status task.status) (map (λ s. normalize_status (some s)) statuses)

  unfoldable pub add_allowed : List Text → Dict Bool → List PlanningTask → Dict Bool
  add_allowed statuses next [] = next
  add_allowed statuses next (task ∷ tasks) =
      add_allowed statuses (if is_allowed statuses task then insert task.key true next else next)
        tasks

  unfoldable pub select_planning_tasks_by_status_map : List PlanningTask → List Text → Dict Bool
  unfolding add_allowed
  select_planning_tasks_by_status_map tasks statuses = add_allowed statuses [] tasks

  unfoldable pub include_planning_tasks_by_status_map :
      Dict Bool → List PlanningTask → List Text → Dict Bool
  unfolding add_allowed
  include_planning_tasks_by_status_map selected tasks statuses = add_allowed statuses selected tasks

  unfoldable pub all_selected_of : Dict Bool → List PlanningTask → List Text → Bool
  all_selected_of selected tasks statuses =
      let matching = filter (is_allowed statuses) tasks in
      non_empty matching && all (λ task. is_selected task.key selected) matching

  unfoldable pub toggle_include_by_status_map :
      Dict Bool → List PlanningTask → List Text → Dict Bool × Bool
  unfolding all_selected_of set_each
  toggle_include_by_status_map selected tasks statuses =
      let all_selected = all_selected_of selected tasks statuses in
      (set_each all_selected selected (filter (is_allowed statuses) tasks), all_selected)

pub record DashboardSelection : Type 0 where
  pub valid_task_key_set : List Text
  pub next_selected_task_keys : List Text
  pub next_selection_mode : SelectionMode
  pub next_selected_teams : List Text

-- `teamOptions` as far as it is read: the ids.
unfoldable pub resolve_planning_selection_for_dashboard :
    Dict Bool
    → TeamsValue
    → SelectionMode
    → Bool
    → List PlanningTask
    → List Text
    → List (Option Text)
    → DashboardSelection
resolve_planning_selection_for_dashboard selected teams mode is_future tasks team_option_ids group =
    let valid = unique (filter non_empty (map (λ t. trim t.key) tasks)) in
    let team_ids =
      filter (λ id. non_empty id && not (text_beq id all_id)) (map trim team_option_ids) in
    let stored : StoredState = record nothing_stored {
      selected_task_keys = some (selected_task_keys_from_map selected (some valid));
      selected_teams = teams;
      selection_mode = some (mode_text mode);
    } in
    let resolved = resolve_planning_selection_state true stored is_future valid (unique team_ids) in
    record {
      valid_task_key_set = valid;
      next_selected_task_keys = resolved.selected_task_keys;
      next_selection_mode = resolved.selection_mode;
      next_selected_teams =
          sanitize_selected_teams_for_scope (many resolved.selected_teams) group
            (map (λ id. some id) team_ids);
    }
