-- ===== src/Planning/Selection/Tests.antt =====
-- The selection on small inputs. Statuses are compared as they are.
use jira_execution_planner.Base.{
  ◌≡◌, refl, true, false, not, Option, none, some, List, [], ◌∷◌, map, if◌then◌else◌,
}
use jira_execution_planner.Base.Lists.{All, includes, unique_from}
use jira_execution_planner.Base.Text.{
  Text, text, text_equality, text_beq, trim, trimmed, text_le, or_empty,
}
use jira_execution_planner.Base.Dict.{lookup, insert, remove, keys}
use jira_execution_planner.Base.Sort.{sort}
use jira_execution_planner.Planning.Teams.{
  absent, normalize_selected_teams, id_set, ids_equal, sanitize_selected_teams_for_scope,
}
use jira_execution_planner.Planning.State.{
  nothing, manual, default_all, normalize_planning_state, normalize_key_list,
  normalize_team_id_list, normalize_selection_mode, stored_teams, save_planning_state,
  load_planning_state, read_planning_scope_map, write_planning_scope_map,
  resolve_planning_selection_state, reconcile_planning_selection, all_valid_task_keys,
}
use jira_execution_planner.Planning.State.Normal.{IsKey}
use jira_execution_planner.Planning.Selection.{
  PlanningTask, DashboardSelection, is_selected, selected_task_keys_from_map,
  selected_task_map_from_keys, toggle_task_selection_map, select_all_visible_planning_tasks_map,
  is_allowed, select_planning_tasks_by_status_map, include_planning_tasks_by_status_map,
  toggle_include_by_status_map, resolve_planning_selection_for_dashboard,
}
use jira_execution_planner.Planning.Selection.Maps.{
  is_selected-toggle, is_selected-select_all_visible,
}
use jira_execution_planner.Planning.Selection.Handlers.{
  Baseline, View, Dashboard, Action, toggle_task, clear_selected, select_all_visible,
  toggle_include, undo, perform, perform_all, choose, undo_to, track, mark_bulk_changed,
  persist_planning_selection_state, stored_selection,
}
use jira_execution_planner.Planning.Selection.Stored.{
  Works, IsStored, perform-IsStored, reload_shows,
}
use jira_execution_planner.Planning.Selection.Hydrate.{
  LoadedScope, ScopeEvent, act, reload, hydrate, act_on, handle_scope_event, handle_scope_events,
  undo-hydrate,
}
use jira_execution_planner.Planning.Selection.Sequence.{perform_all-IsStored}

program : Unit {0}
unfolding is_selected selected_task_keys_from_map selected_task_map_from_keys
    toggle_task_selection_map select_all_visible_planning_tasks_map is_allowed
    select_planning_tasks_by_status_map include_planning_tasks_by_status_map
    toggle_include_by_status_map resolve_planning_selection_for_dashboard perform perform_all choose
    undo_to track mark_bulk_changed persist_planning_selection_state stored_selection
    normalize_planning_state normalize_key_list normalize_team_id_list normalize_selection_mode
    stored_teams save_planning_state load_planning_state read_planning_scope_map
    write_planning_scope_map resolve_planning_selection_state reconcile_planning_selection
    all_valid_task_keys normalize_selected_teams id_set sanitize_selected_teams_for_scope sort
    text_le text_beq trim trimmed unique_from lookup insert remove keys
program = tt

abbrev status_of : Option Text → Text
status_of s = or_empty s

abbrev tasks : List PlanningTask
tasks =
    record { key = text "A-1"; status = some (text "to do") }
    ∷ record { key = text "A-2"; status = some (text "done") }
    ∷ record { key = text "A-3"; status = some (text "to do") }
    ∷ []

abbrev baseline : Baseline
baseline = record {
  scope_key = text "s";
  selected_tasks = some ((text "A-2", true) ∷ []);
  selection_mode = some default_all;
}

abbrev view : View
view = record {
  scope_key = text "s";
  selected_teams = absent;
  selection_tasks = tasks;
  visible_tasks = tasks;
  is_future = true;
  baseline = some baseline;
}

abbrev begin : Dashboard
begin = record {
  selected_tasks = [];
  selection_mode = manual;
  can_undo = false;
  storage = record { raw = nothing; can_get = true; can_set = true };
  tracked = [];
}

abbrev shown : List Action → Dashboard
shown actions = perform_all normalize_selected_teams view status_of actions begin

toggle_include_twice :
    ((shown (toggle_include (text "to do" ∷ []) ∷ [])).selected_tasks
      ≡ (text "A-1", true) ∷ (text "A-3", true) ∷ [])
    × ((shown (
          toggle_include (text "to do" ∷ [])
          ∷ toggle_include (text "to do" ∷ [])
          ∷ [])).selected_tasks
        ≡ [])
unfolding program
toggle_include_twice = (refl, refl)

undo_after_clear :
    (shown (select_all_visible ∷ clear_selected ∷ undo ∷ [])).selected_tasks
    ≡ (text "A-2", true) ∷ []
unfolding program
undo_after_clear = refl

resolved_for_dashboard :
    (resolve_planning_selection_for_dashboard [] absent default_all true tasks
      (text "all" ∷ text "t1" ∷ [])
      (some (text "t1") ∷ [])).next_selected_task_keys
    ≡ text "A-1" ∷ text "A-2" ∷ text "A-3" ∷ []
unfolding program
resolved_for_dashboard = refl

works : Works begin.storage
works = record { readable = refl; writable = refl; no_array = refl }

is_selected-toggle_example :
    is_selected (text "A-1") (toggle_task_selection_map [] (text "A-1")) ≡ (
      if text_beq (text "A-1") (text "A-1")
      then not (is_selected (text "A-1") [])
      else is_selected (text "A-1") [])
is_selected-toggle_example = is_selected-toggle (text "A-1") (text "A-1") []

is_selected-select_all_visible_example :
    is_selected (text "A-1") (select_all_visible_planning_tasks_map tasks) ≡ true
unfolding text_beq
is_selected-select_all_visible_example = is_selected-select_all_visible (text "A-1") tasks

abbrev to_do : List Text
to_do = text "to do" ∷ []

perform_all-IsStored_example : IsStored view (shown (clear_selected ∷ undo ∷ []))
perform_all-IsStored_example =
    perform_all-IsStored normalize_selected_teams view refl status_of clear_selected (undo ∷ [])
      begin (λ e. cc) works

abbrev everything : Dashboard
everything = perform normalize_selected_teams view status_of select_all_visible begin

everything-IsStored : IsStored view everything
everything-IsStored =
    (perform-IsStored normalize_selected_teams view refl status_of select_all_visible begin
      (λ e. cc) works).0

everything-IsKey : All IsKey (keys everything.selected_tasks)
unfolding program
everything-IsKey = (
  record { filled = refl; trimmed_key = refl },
  (
    record { filled = refl; trimmed_key = refl },
    (record { filled = refl; trimmed_key = refl }, tt),
  ),
)

reload_shows_example :
    is_selected
      (text "A-2")
      (selected_task_map_from_keys (map (λ k. some k) everything-IsStored.state.selected_task_keys))
    ≡ is_selected (text "A-2") everything.selected_tasks
reload_shows_example = reload_shows everything everything-IsStored everything-IsKey (text "A-2")

abbrev loaded_selection : DashboardSelection
loaded_selection = record {
  valid_task_key_set = text "A-1" ∷ text "A-2" ∷ text "A-3" ∷ [];
  next_selected_task_keys = text "A-1" ∷ text "A-2" ∷ [];
  next_selection_mode = manual;
  next_selected_teams = text "all" ∷ [];
}

-- The dashboard on another scope, with another task selected
abbrev on_other_scope : LoadedScope
on_other_scope = record {
  dashboard = record begin { selected_tasks = (text "A-3", true) ∷ []; can_undo = true };
  baseline = none;
  baseline_scope = text "other";
}

abbrev hydrated : LoadedScope
hydrated = hydrate normalize_selected_teams (text "s") loaded_selection on_other_scope

abbrev changes : List ScopeEvent
changes = act clear_selected ∷ reload loaded_selection ∷ act (toggle_task (text "A-3")) ∷ []

abbrev undone_changes : Dashboard
undone_changes =
    (handle_scope_event normalize_selected_teams view status_of (act undo)
      (handle_scope_events normalize_selected_teams view status_of changes hydrated)).dashboard

other_scope : text_beq on_other_scope.baseline_scope (text "s") ≡ false
unfolding text_beq
other_scope = refl

next_keys-IsKey : All IsKey loaded_selection.next_selected_task_keys
unfolding program
next_keys-IsKey = (
  record { filled = refl; trimmed_key = refl },
  (record { filled = refl; trimmed_key = refl }, tt),
)

valid_key : includes (text "A-1") loaded_selection.valid_task_key_set ≡ true
unfolding text_beq
valid_key = refl

loaded_shown :
    (undone_changes.selected_tasks ≡ (text "A-1", true) ∷ (text "A-2", true) ∷ [])
    × (is_selected (text "A-1") hydrated.dashboard.selected_tasks ≡ true)
unfolding program hydrate act_on handle_scope_event handle_scope_events ids_equal
loaded_shown = (refl, refl)

undo-hydrate_example :
    (is_selected (text "A-1") undone_changes.selected_tasks
      ≡ is_selected (text "A-1") hydrated.dashboard.selected_tasks)
    × (undone_changes.selection_mode ≡ hydrated.dashboard.selection_mode)
    × (undone_changes.can_undo ≡ false)
undo-hydrate_example =
    undo-hydrate normalize_selected_teams status_of view loaded_selection on_other_scope changes
      (text "A-1") other_scope next_keys-IsKey valid_key
