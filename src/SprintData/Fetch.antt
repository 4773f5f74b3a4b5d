-- ===== src/SprintData/Fetch.antt =====
-- `fetchTasks` of frontend/src/eng/useEngSprintData.js, for the answers that its requests get.
use jira_execution_planner.Base.{
  suc, Bool, true, false, ◌&&◌, ◌||◌, not, Option, none, some, List, [], ◌∷◌, ◌++◌, map,
  if◌then◌else◌,
}
use jira_execution_planner.Base.Lists.{non_empty, unique}
use jira_execution_planner.Base.Text.{Text, text, text_equality, or_empty}
use jira_execution_planner.Base.Dict.{Dict, insert}
use jira_execution_planner.EngTasks.{
  task_epic_keys, Task, Epic, sort_tasks_by_priority, filter_tasks_for_team_set,
  filter_epics_in_scope_for_team_set, filter_epics_by_task_epic_keys,
}
use jira_execution_planner.SprintData.{LoadError, auth_recovery_login_url, task_load_error_message}
use jira_execution_planner.SprintData.Requests.{
  Project, TaskData, Network, FetchOptions, SprintScope, SprintView, begin_fetch, request_of,
  Outcome, request_tasks, sent, product, tech, loaded, thrown, stopped,
}

abbrev pub set_epics : Project → List Epic → SprintView → SprintView
set_epics product epics v = record v { product_epics = epics }
set_epics tech epics v = record v { tech_epics = epics }

abbrev pub set_ready_epics : Option Project → List Epic → SprintView → SprintView
set_ready_epics none epics v = v
set_ready_epics (some product) epics v = record v { ready_product_epics = epics }
set_ready_epics (some tech) epics v = record v { ready_tech_epics = epics }

-- `{ ...prev, ...filteredEpics }`
unfoldable pub merge_epics : Dict Epic → Dict Epic → Dict Epic
merge_epics previous [] = previous
merge_epics previous ((key, epic) ∷ epics) = merge_epics (insert key epic previous) epics

unfoldable pub tasks_shown : SprintScope → TaskData → List Task
tasks_shown scope task_data =
    filter_tasks_for_team_set (sort_tasks_by_priority scope.priority_order task_data.issues)
      scope.team_ids scope.team_set

unfoldable pub show_data : SprintScope → Project → FetchOptions → TaskData → SprintView → SprintView
show_data scope kind options task_data v =
    let epics =
      filter_epics_in_scope_for_team_set task_data.epics_in_scope scope.team_ids scope.team_set
        (map (λ entry. entry.1) scope.team_labels) in
    let details =
      merge_epics v.epic_details
        (filter_epics_by_task_epic_keys task_data.epics (tasks_shown scope task_data)) in
    set_ready_epics options.epics_setter epics (
      if options.update_epics
      then set_epics kind epics (record v { epic_details = details })
      else v)

unfoldable pub redirect_to_auth_recovery : LoadError → SprintView → SprintView
redirect_to_auth_recovery err v =
    let login_url = auth_recovery_login_url err in
    if non_empty login_url
    then record v { recoveries = suc v.recoveries; redirects = v.redirects ++ login_url ∷ [] }
    else v

unfoldable pub show_failure : SprintScope → FetchOptions → LoadError → SprintView → SprintView
show_failure scope options err v = redirect_to_auth_recovery err (
    if options.set_errors
    then record v {
      error =
          if scope.handles_connection err
          then []
          else task_load_error_message err scope.backend_url;
    }
    else v)

-- `finally`
unfoldable pub end_fetch_tasks : FetchOptions → SprintView → SprintView
end_fetch_tasks options v = record v { loading = not options.use_loading && v.loading }

abbrev pub finish_fetch :
    SprintScope → Project → FetchOptions → Outcome → SprintView → List Task × SprintView
finish_fetch scope kind options (loaded task_data) v = (
  tasks_shown scope task_data,
  end_fetch_tasks options (show_data scope kind options task_data v),
)
finish_fetch scope kind options (thrown err) v =
    ([], end_fetch_tasks options (show_failure scope options err v))
finish_fetch scope kind options stopped v = ([], end_fetch_tasks options v)

unfoldable pub fetch_tasks :
    SprintScope → Project → FetchOptions → Network → SprintView → List Task × SprintView
fetch_tasks scope kind options n v =
    let (count, outcome) = request_tasks n in
    finish_fetch scope kind options outcome (record (begin_fetch options v) {
      requests = v.requests ++ sent count (request_of scope kind options v);
    })

-- A group is active and has no teams.
unfoldable pub has_no_teams : SprintScope → Bool
has_no_teams scope = non_empty (or_empty scope.active_group_id) && not (non_empty scope.team_ids)

abbrev pub ready_options : Project → List Text → Bool → FetchOptions
ready_options kind epic_keys force_refresh = record {
  sprint_override = some [];
  force_refresh = force_refresh;
  purpose = some (text "ready-to-close");
  epic_keys = epic_keys;
  update_epics = false;
  epics_setter = some kind;
  use_loading = false;
  set_errors = false;
  clear_error = true;
}

-- `loadReadyToCloseProductTasks` and `loadReadyToCloseTechTasks`, with the loaded tasks of the
-- project, the network, and the tasks that are set
unfoldable pub load_ready_to_close_tasks :
    SprintScope → Project → List Task → Bool → Network → SprintView → List Task × SprintView
load_ready_to_close_tasks scope kind loaded_tasks force_refresh n v =
    let epic_keys = unique (task_epic_keys loaded_tasks) in
    if has_no_teams scope || not (non_empty epic_keys)
    then ([], set_ready_epics (some kind) [] v)
    else fetch_tasks scope kind (ready_options kind epic_keys force_refresh) n v
