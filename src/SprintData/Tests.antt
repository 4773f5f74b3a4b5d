-- ===== src/SprintData/Tests.antt =====
-- A load with a stale session, and two loads that a change of sprint cuts across.
use jira_execution_planner.Base.{
  ℕ, ◌≡◌, refl, true, false, none, some, [], ◌∷◌, ◌++◌, if◌then◌else◌,
}
use jira_execution_planner.Base.Lists.{non_empty, unique_from}
use jira_execution_planner.Base.Text.{Text, text, text_beq, trim, trimmed, lower, decimal, digits}
use jira_execution_planner.Base.Dict.{lookup, insert}
use jira_execution_planner.Base.Sort.{sort_by}
use jira_execution_planner.EngTasks.{
  Task, priority_order, get_task_team_info, task_rank, sort_tasks_by_priority,
  filter_tasks_for_team_set, task_epic_keys, filter_epics_by_task_epic_keys,
  filter_epics_in_scope_for_team_set, epic_matches_active_group_label,
}
use jira_execution_planner.PriorityScheme.{starts_with}
use jira_execution_planner.SprintData.{
  ErrorBody, is_stale_auth_error, build_task_response_error, auth_recovery_login_url,
  task_load_error_message,
}
use jira_execution_planner.SprintData.Requests.{
  product, tech, received, refused, Network, load_options, SprintScope, SprintView, begin_fetch,
  request_of, request_tasks, sent, outcome_of,
}
use jira_execution_planner.SprintData.Fetch.{
  merge_epics, tasks_shown, show_data, redirect_to_auth_recovery, show_failure, end_fetch_tasks,
  fetch_tasks, has_no_teams, load_ready_to_close_tasks,
}
use jira_execution_planner.SprintData.Answers.{
  is_retried, last_answer, tasks_of, is_reported, fetch_tasks-IsAnswered,
}
use jira_execution_planner.SprintData.Loads.{
  Load, LoadState, mark, end_load, start_load, reset_marks, select_sprint, first_state, Reach,
  start, selected, started, loaded,
}
use jira_execution_planner.SprintData.Marks.{has_ended, Reach-IsLoaded}

program : Unit {0}
unfolding text_beq trim trimmed lower decimal digits lookup insert unique_from sort_by
    get_task_team_info task_rank sort_tasks_by_priority filter_tasks_for_team_set task_epic_keys
    filter_epics_by_task_epic_keys filter_epics_in_scope_for_team_set
    epic_matches_active_group_label starts_with is_stale_auth_error build_task_response_error
    auth_recovery_login_url task_load_error_message begin_fetch request_of request_tasks merge_epics
    tasks_shown show_data redirect_to_auth_recovery show_failure end_fetch_tasks fetch_tasks
    has_no_teams load_ready_to_close_tasks mark end_load start_load reset_marks select_sprint
program = tt

abbrev scope : SprintScope
scope = record {
  backend_url = text "http://x";
  selected_sprint = some (text "12");
  selected_sprint_name = none;
  active_group_id = some (text "g");
  team_ids = text "1" ∷ [];
  team_set = text "1" ∷ [];
  team_labels = (text "1", some (text " alpha ")) ∷ [];
  handles_connection = λ e. false;
  priority_order = priority_order;
}

abbrev view : SprintView
view = record {
  loading = false;
  error = text "old";
  page_load_refresh = true;
  epic_details = [];
  product_epics = [];
  tech_epics = [];
  ready_product_epics = [];
  ready_tech_epics = [];
  recoveries = 0;
  redirects = [];
  requests = [];
}

abbrev task : Text → Task
task team = record {
  team = none;
  team_id = some team;
  team_name = none;
  priority = none;
  epic_key = none;
}

abbrev stale : ErrorBody
stale = record {
  message = none;
  error = some (text "auth_connection_stale");
  login_url = some (text "/login?next=1");
}

abbrev network : Network
network = record {
  first = refused 401 (some stale);
  is_refreshed = true;
  second =
      received (record {
        issues = task (text "1") ∷ task (text "2") ∷ [];
        epics_in_scope = [];
        epics = [];
      });
}

tasks-retried :
    (fetch_tasks scope product (load_options false) network view).0 ≡ task (text "1") ∷ []
unfolding program
tasks-retried = refl

redirects-refused :
    (fetch_tasks scope product
      (load_options false)
      (record network { is_refreshed = false })
      view).1.redirects
    ≡ text "/login?next=1" ∷ []
unfolding program
redirects-refused = refl

ready-none : (load_ready_to_close_tasks scope tech (task (text "1") ∷ []) false network view).0 ≡ []
unfolding program
ready-none = refl

fetch_tasks-IsAnswered_example :
    let (tasks, after) = fetch_tasks scope product (load_options false) network view in
    let outcome = outcome_of (last_answer network) in
    let request = request_of scope product (load_options false) view in
    (tasks ≡ tasks_of scope outcome)
    × (after.loading ≡ false)
    × (non_empty after.error ≡ is_reported scope outcome)
    × (after.requests ≡ view.requests ++ sent (if is_retried network then 2 else 1) request)
fetch_tasks-IsAnswered_example = fetch_tasks-IsAnswered scope product false network view

-- Sprint 1 is loaded in part when sprint 2 is selected; the tasks of a sprint are numbers.
abbrev one : LoadState ℕ
one = start_load tech false (start_load product false (select_sprint (some (text "1")) first_state))

abbrev load_of : Load
load_of = record { kind = product; sprint = some (text "1") }

abbrev tech_load : Load
tech_load = record { kind = tech; sprint = some (text "1") }

one-running : one.running ≡ load_of ∷ tech_load ∷ []
unfolding program
one-running = refl

abbrev two : LoadState ℕ
two = end_load product (some (text "1")) (5 ∷ []) (record one { running = tech_load ∷ [] })

two-running : two.running ≡ tech_load ∷ []
unfolding program
two-running = refl

two-last_loaded : two.last_loaded ≡ none
unfolding program
two-last_loaded = refl

abbrev three : LoadState ℕ
three = end_load tech (some (text "1")) [] (record two { running = [] })

three-last_loaded : three.last_loaded ≡ some (text "1")
unfolding program
three-last_loaded = refl

abbrev cut : LoadState ℕ
cut = end_load tech (some (text "1")) [] (select_sprint (some (text "2")) two)

cut-last_loaded : cut.last_loaded ≡ none
unfolding program
cut-last_loaded = refl

three-reached : Reach three
three-reached = loaded [] [] tech_load [] two two-running (
    loaded [] (tech_load ∷ []) load_of (5 ∷ []) one one-running
      (started tech false _ (started product false _ (selected (some (text "1")) _ start))))

Reach-IsLoaded_example :
    (has_ended product (some (text "1")) three.ended ≡ true)
    × (has_ended tech (some (text "1")) three.ended ≡ true)
Reach-IsLoaded_example = Reach-IsLoaded three (text "1") three-reached three-last_loaded
