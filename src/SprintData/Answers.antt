-- ===== src/SprintData/Answers.antt =====
-- What a load of sprint tasks sends and shows, by the answers that it gets.
use jira_execution_planner.Base.{
  ◌≡◌, refl, Bool, true, false, ◌&&◌, not, List, [], ◌++◌, if◌then◌else◌, if_cases, Bool-cases, inl,
  inr,
}
use jira_execution_planner.Base.Lists.{non_empty}
use jira_execution_planner.Base.Text.{Text, text}
use jira_execution_planner.EngTasks.{Task}
use jira_execution_planner.SprintData.{
  has_code, LoadError, is_stale_auth_error, build_task_response_error, auth_recovery_login_url,
  task_load_error_message,
}
use jira_execution_planner.SprintData.Requests.{
  Project, Answer, received, refused, broken, aborted, Network, TaskRequest, load_options,
  SprintScope, SprintView, begin_fetch, request_of, Outcome, loaded, thrown, stopped, outcome_of,
  request_again, product, tech, request_tasks, sent,
}
use jira_execution_planner.SprintData.Fetch.{
  tasks_shown, redirect_to_auth_recovery, show_data, show_failure, end_fetch_tasks, finish_fetch,
  fetch_tasks,
}

-- The first answer says that the session is stale.
abbrev pub is_stale : Answer → Bool
is_stale (refused status body) = is_stale_auth_error (build_task_response_error status body)
is_stale (received task_data) = false
is_stale (broken err) = false
is_stale aborted = false

-- ... and it could be refreshed
abbrev pub is_retried : Network → Bool
is_retried n = is_stale n.first && n.is_refreshed

abbrev pub last_answer : Network → Answer
last_answer n = if is_retried n then n.second else n.first

-- The tasks of the last answer
abbrev pub tasks_of : SprintScope → Outcome → List Task
tasks_of scope (loaded task_data) = tasks_shown scope task_data
tasks_of scope (thrown err) = []
tasks_of scope stopped = []

-- Whether the user is told of an error: not of an abortion, nor of one that the page handles.
abbrev pub is_reported : SprintScope → Outcome → Bool
is_reported scope (loaded task_data) = false
is_reported scope (thrown err) = not (scope.handles_connection err)
is_reported scope stopped = false

request_again_lem :
    (first : Answer) (is_refreshed : Bool) (second : Answer)
    → request_again first is_refreshed second ≡ (
      if is_stale first && is_refreshed then 2 else 1,
      outcome_of (if is_stale first && is_refreshed then second else first),
    )
request_again_lem (received task_data) is_refreshed second = refl
request_again_lem (broken err) is_refreshed second = refl
request_again_lem aborted is_refreshed second = refl
request_again_lem (refused status body) is_refreshed second =
    elim (Bool-cases
      (is_stale_auth_error (build_task_response_error status body) && is_refreshed)) [
        | inl h ↦ rw h refl
        | inr h ↦ rw h refl
      ]

abbrev IsFilled : Text → Type 0
IsFilled t = non_empty t ≡ true

message-IsFilled :
    (err : LoadError) (backend_url : Text) → IsFilled (task_load_error_message err backend_url)
unfolding task_load_error_message
message-IsFilled err backend_url =
    if_cases IsFilled (has_code err.code (text "route_not_oauth_ready")) (λ _. refl)
      (λ _.
        if_cases IsFilled (has_code err.code (text "missing_project_access")) (λ _. refl)
          (λ _.
            if_cases IsFilled (has_code err.code (text "auth_connection_stale")) (λ _. refl)
              (λ _.
                if_cases IsFilled (has_code err.code (text "auth_connection_revoked")) (λ _. refl)
                  (λ _.
                    if_cases IsFilled (has_code err.code (text "account_disabled")) (λ _. refl)
                      (λ _.
                        if_cases IsFilled (has_code err.code (text "missing_oauth_scope"))
                          (λ _. refl)
                          (λ _.
                            if_cases IsFilled (non_empty (auth_recovery_login_url err)) (λ _. refl)
                              (λ _. refl)))))))

-- What a finished load has to show, besides the data
record IsShown (scope : SprintScope) (outcome : Outcome) (requests : List TaskRequest)
    (result : List Task × SprintView) : Type 0 where
  tasks_are : result.0 ≡ tasks_of scope outcome
  is_over : result.1.loading ≡ false
  is_told : non_empty result.1.error ≡ is_reported scope outcome
  requests_are : result.1.requests ≡ requests

redirect-keeps :
    (err : LoadError) (v : SprintView)
    → ((redirect_to_auth_recovery err v).error ≡ v.error)
      × ((redirect_to_auth_recovery err v).requests ≡ v.requests)
unfolding redirect_to_auth_recovery
redirect-keeps err v = elim (Bool-cases (non_empty (auth_recovery_login_url err))) [
  | inl h ↦ rw h (refl, refl)
  | inr h ↦ rw h (refl, refl)
]

finish-IsShown :
    (scope : SprintScope) (kind : Project) (force : Bool) (outcome : Outcome) (v : SprintView)
    → non_empty v.error ≡ false
    → IsShown scope outcome v.requests (finish_fetch scope kind (load_options force) outcome v)
unfolding end_fetch_tasks show_data show_failure
finish-IsShown scope product force (loaded task_data) v h = record {
  tasks_are = refl;
  is_over = refl;
  is_told = h;
  requests_are = refl;
}
finish-IsShown scope tech force (loaded task_data) v h = record {
  tasks_are = refl;
  is_over = refl;
  is_told = h;
  requests_are = refl;
}
finish-IsShown scope kind force (thrown err) v h =
    let keeps = redirect-keeps err (record v {
      error =
          if scope.handles_connection err
          then []
          else task_load_error_message err scope.backend_url;
    }) in
    record {
      tasks_are = refl;
      is_over = refl;
      is_told = rw keeps.0 (elim (Bool-cases (scope.handles_connection err)) [
        | inl k ↦ rw k refl
        | inr k ↦ rw k (message-IsFilled err scope.backend_url)
      ]);
      requests_are = keeps.1;
    }
finish-IsShown scope kind force stopped v h = record {
  tasks_are = refl;
  is_over = refl;
  is_told = h;
  requests_are = refl;
}

-- A load of the tasks of a sprint, whatever its requests get: it sends one request, or the same
-- request twice if the first answer says that the session is stale and the session could be
-- refreshed; it shows as no longer loading; it gives the tasks of the last answer that the teams of
-- the group have, or none; and it shows an error exactly if the last answer failed, was not
-- aborted, and is no failure of the connection that the page handles.
pub fetch_tasks-IsAnswered :
    (scope : SprintScope) (kind : Project) (force : Bool) (n : Network) (v : SprintView)
    → let (tasks, after) = fetch_tasks scope kind (load_options force) n v in
      let outcome = outcome_of (last_answer n) in
      let request = request_of scope kind (load_options force) v in
      (tasks ≡ tasks_of scope outcome)
      × (after.loading ≡ false)
      × (non_empty after.error ≡ is_reported scope outcome)
      × (after.requests ≡ v.requests ++ sent (if is_retried n then 2 else 1) request)
unfolding fetch_tasks begin_fetch request_tasks
fetch_tasks-IsAnswered scope kind force n v =
    rw (request_again_lem n.first n.is_refreshed n.second) (
      let h = finish-IsShown scope kind force (outcome_of (last_answer n)) _ refl in
      (h.tasks_are, h.is_over, h.is_told, h.requests_are))
