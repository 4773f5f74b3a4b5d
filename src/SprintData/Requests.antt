-- ===== src/SprintData/Requests.antt =====
-- What `fetchTasks` of frontend/src/eng/useEngSprintData.js gets and sends: its options, the answers
-- of the network, and its one or two requests.
use jira_execution_planner.Base.{
  ℕ, zero, suc, Bool, true, false, ◌&&◌, ◌||◌, Option, none, some, List, [], ◌∷◌, map,
  if◌then◌else◌,
}
use jira_execution_planner.Base.Lists.{filter, non_empty, unique}
use jira_execution_planner.Base.Text.{Text, text_equality, trimmed, or_empty}
use jira_execution_planner.Base.Dict.{Dict, lookup}
use jira_execution_planner.EngTasks.{Task, Epic}
use jira_execution_planner.SprintData.{
  LoadError, ErrorBody, is_stale_auth_error, build_task_response_error,
}

pub data Project : Type 0 where
  product tech : Project

-- The body of a response that is `ok`
pub record TaskData : Type 0 where
  pub issues : List Task
  pub epics_in_scope : List Epic
  pub epics : Dict Epic

-- An answer to a request: data, a response that is not `ok`, a rejection (unreadable data too), or
-- the abortion of the request.
pub data Answer : Type 0 where
  received : TaskData → Answer
  refused : ℕ → Option ErrorBody → Answer
  broken : LoadError → Answer
  aborted : Answer

-- What the network does during one load: the answer, whether the session could be refreshed, and
-- the answer to a second request.
pub record Network : Type 0 where
  pub first : Answer
  pub is_refreshed : Bool
  pub second : Answer

pub record TaskRequest : Type 0 where
  pub project : Project
  pub sprint : Text
  pub sprint_name : Text
  pub group_id : Option Text
  pub team_ids : List Text
  pub team_labels : List Text
  pub refresh : Bool
  pub purpose : Option Text
  pub epic_keys : List Text

-- A Boolean option stands for what the code makes of it: `useLoading !== false`, and so on.
pub record FetchOptions : Type 0 where
  pub sprint_override : Option Text
  pub force_refresh : Bool
  pub purpose : Option Text
  pub epic_keys : List Text
  pub update_epics : Bool
  -- `epicsInScopeSetter`: that of the epics ready to close of a project
  pub epics_setter : Option Project
  pub use_loading : Bool
  pub set_errors : Bool
  pub clear_error : Bool

-- `{ forceRefresh }`
abbrev pub load_options : Bool → FetchOptions
load_options force_refresh = record {
  sprint_override = none;
  force_refresh = force_refresh;
  purpose = none;
  epic_keys = [];
  update_epics = true;
  epics_setter = none;
  use_loading = true;
  set_errors = true;
  clear_error = true;
}

-- The properties of the hook. `handles_connection` is `onServerConnectionFailure`, and the last is
-- `priorityOrder`.
pub record SprintScope : Type 0 where
  pub backend_url : Text
  pub selected_sprint : Option Text
  pub selected_sprint_name : Option Text
  pub active_group_id : Option Text
  pub team_ids : List Text
  pub team_set : List Text
  pub team_labels : Dict (Option Text)
  pub handles_connection : LoadError → Bool
  pub priority_order : Dict ℕ

pub record SprintView : Type 0 where
  pub loading : Bool
  pub error : Text
  pub page_load_refresh : Bool
  pub epic_details : Dict Epic
  pub product_epics : List Epic
  pub tech_epics : List Epic
  pub ready_product_epics : List Epic
  pub ready_tech_epics : List Epic
  pub recoveries : ℕ
  pub redirects : List Text
  pub requests : List TaskRequest

-- Up to the first request
unfoldable pub begin_fetch : FetchOptions → SprintView → SprintView
begin_fetch options v = record v {
  loading = options.use_loading || v.loading;
  error = if options.set_errors && options.clear_error then [] else v.error;
  page_load_refresh =
      if v.page_load_refresh || options.force_refresh then false else v.page_load_refresh;
}

abbrev pub label_of_team : SprintScope → Text → Text
label_of_team scope team_id = elim (lookup team_id scope.team_labels) [
  | none ↦ []
  | some label ↦ trimmed label
]

abbrev pub override_or : Option Text → Option Text → Text
override_or none selected = or_empty selected
override_or (some sprint) selected = sprint

unfoldable pub request_of : SprintScope → Project → FetchOptions → SprintView → TaskRequest
request_of scope kind options v = record {
  project = kind;
  sprint_name = or_empty scope.selected_sprint_name;
  group_id = scope.active_group_id;
  team_ids = scope.team_ids;
  sprint = override_or options.sprint_override scope.selected_sprint;
  team_labels = unique (filter non_empty (map (label_of_team scope) scope.team_ids));
  refresh = v.page_load_refresh || options.force_refresh;
  purpose = options.purpose;
  epic_keys = options.epic_keys;
}

-- What the `try` block comes to
pub data Outcome : Type 0 where
  loaded : TaskData → Outcome
  thrown : LoadError → Outcome
  stopped : Outcome

abbrev pub outcome_of : Answer → Outcome
outcome_of (received task_data) = loaded task_data
outcome_of (refused status body) = thrown (build_task_response_error status body)
outcome_of (broken err) = thrown err
outcome_of aborted = stopped

-- The requests of a load, with how many were sent, by the first answer and, for a second one, after
-- a refresh of a stale session
abbrev pub request_again : Answer → Bool → Answer → ℕ × Outcome
request_again (received task_data) is_refreshed second = (1, loaded task_data)
request_again (refused status body) is_refreshed second =
    let err = build_task_response_error status body in
    if is_stale_auth_error err && is_refreshed then (2, outcome_of second) else (1, thrown err)
request_again (broken err) is_refreshed second = (1, thrown err)
request_again aborted is_refreshed second = (1, stopped)

unfoldable pub request_tasks : Network → ℕ × Outcome
request_tasks n = request_again n.first n.is_refreshed n.second

abbrev pub sent : ℕ → TaskRequest → List TaskRequest
sent zero request = []
sent (suc n) request = request ∷ sent n request
