-- ===== src/Planning/Selection/Handlers.antt =====
-- `createPlanningSelectionHandlers`, `persistPlanningSelectionState` and what they change.
use jira_execution_planner.Base.{
  Bool, true, false, Option, none, some, List, [], ◌∷◌, if◌then◌else◌,
}
use jira_execution_planner.Base.Lists.{non_empty}
use jira_execution_planner.Base.Text.{Text, text, text_beq}
use jira_execution_planner.Base.Dict.{Dict}
use jira_execution_planner.Planning.Teams.{TeamsValue, many}
use jira_execution_planner.Planning.State.{
  SelectionMode, manual, default_all, mode_text, StoredState, LocalStorage, save_planning_state,
  nothing_stored,
}
use jira_execution_planner.Planning.Selection.{
  PlanningTask, selected_task_keys_from_map, toggle_task_selection_map,
  select_all_visible_planning_tasks_map, select_planning_tasks_by_status_map,
  include_planning_tasks_by_status_map, toggle_include_by_status_map,
}

-- `planningLoadedSelectionRef.current`
pub record Baseline : Type 0 where
  pub scope_key : Text
  pub selected_tasks : Option (Dict Bool)
  pub selection_mode : Option SelectionMode

-- The arguments of `createPlanningSelectionHandlers` that no handler changes.
pub record View : Type 0 where
  pub scope_key : Text
  pub selected_teams : TeamsValue
  pub selection_tasks : List PlanningTask
  pub visible_tasks : List PlanningTask
  pub is_future : Bool
  pub baseline : Option Baseline

-- What the setters, the storage and `trackPlanningSelection` receive. The log of analytics calls
-- has the latest first.
pub record Dashboard : Type 0 where
  pub selected_tasks : Dict Bool
  pub selection_mode : SelectionMode
  pub can_undo : Bool
  pub storage : LocalStorage
  pub tracked : List (Text × Dict Bool)

pub data Action : Type 0 where
  toggle_task : Text → Action
  clear_selected select_all_visible : Action
  select_by_status include_by_status toggle_include : List Text → Action
  undo : Action

unfoldable pub track : Text → Dashboard → Dashboard
track action d = record d { tracked = (action, d.selected_tasks) ∷ d.tracked }

unfoldable pub is_scope_baseline : Text → Option Baseline → Bool
is_scope_baseline scope_key none = false
is_scope_baseline scope_key (some b) = text_beq b.scope_key scope_key

-- `markPlanningBulkSelectionChanged`
unfoldable pub mark_bulk_changed : View → Dashboard → Dashboard
unfolding is_scope_baseline
mark_bulk_changed view d =
    if is_scope_baseline view.scope_key view.baseline then record d { can_undo = true } else d

-- `baseline.selectedTasks || {}` and `baseline.selectionMode || PLANNING_SELECTION_MODE_MANUAL`
abbrev pub task_map_or_empty : Option (Dict Bool) → Dict Bool
task_map_or_empty none = []
task_map_or_empty (some m) = m

abbrev pub mode_or_manual : Option SelectionMode → SelectionMode
mode_or_manual none = manual
mode_or_manual (some m) = m

module _ (normalize_selected_teams : TeamsValue → List Text) where
  -- What `persistPlanningSelectionState` hands to `savePlanningState`.
  unfoldable pub stored_selection : Dict Bool → SelectionMode → TeamsValue → StoredState
  stored_selection selected mode teams = record nothing_stored {
    selected_task_keys = some (selected_task_keys_from_map selected none);
    selected_teams = many (normalize_selected_teams teams);
    selection_mode = some (mode_text mode);
  }

  unfoldable pub persist_planning_selection_state :
      LocalStorage → Text → Dict Bool → SelectionMode → TeamsValue → LocalStorage
  persist_planning_selection_state storage scope_key selected mode teams =
      if non_empty scope_key
      then (save_planning_state storage scope_key (stored_selection selected mode teams)).0
      else storage

  module _ (view : View) where
    -- The mode is set, the selection saved and set.
    unfoldable pub choose : Dict Bool → SelectionMode → Dashboard → Dashboard
    choose next mode d = record d {
      selected_tasks = next;
      selection_mode = mode;
      storage =
          persist_planning_selection_state d.storage view.scope_key next mode view.selected_teams;
    }

    -- `undoPlanningSelectionChange`
    unfoldable pub undo_to : Option Baseline → Dashboard → Dashboard
    undo_to none d = d
    undo_to (some b) d =
        let restored =
          choose (task_map_or_empty b.selected_tasks) (mode_or_manual b.selection_mode) d in
        if text_beq b.scope_key view.scope_key
        then track (text "undo_selection") (record restored { can_undo = false })
        else d

    module _ (normalize_status : Option Text → Text) where
      -- The handlers, one to an action.
      unfoldable pub perform : Action → Dashboard → Dashboard
      perform (toggle_task key) d =
          track (text "toggle_task")
            (choose (toggle_task_selection_map d.selected_tasks key) manual d)
      perform clear_selected d =
          track (text "clear_selection") (choose [] manual (mark_bulk_changed view d))
      perform select_all_visible d = track (text "select_all_visible") (
          choose (select_all_visible_planning_tasks_map view.visible_tasks)
            (if view.is_future then default_all else manual) (mark_bulk_changed view d))
      perform (select_by_status statuses) d = track (text "select_status") (
          choose
            (select_planning_tasks_by_status_map normalize_status view.selection_tasks statuses)
            manual (mark_bulk_changed view d))
      perform (include_by_status statuses) d =
          choose
            (include_planning_tasks_by_status_map normalize_status d.selected_tasks
              view.selection_tasks statuses)
            manual d
      perform (toggle_include statuses) d =
          let (next, all_selected) =
            toggle_include_by_status_map normalize_status d.selected_tasks view.selection_tasks
              statuses in
          track (if all_selected then text "exclude_status" else text "include_status")
            (choose next manual (mark_bulk_changed view d))
      perform undo d = undo_to view.baseline d

      unfoldable pub perform_all : List Action → Dashboard → Dashboard
      perform_all [] d = d
      perform_all (a ∷ actions) d = perform_all actions (perform a d)
