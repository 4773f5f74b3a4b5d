-- ===== src/SprintData.antt =====
-- frontend/src/eng/useEngSprintData.js: the errors of a load of sprint tasks, and what a load sends
-- and shows. Codes, messages and addresses are strings or missing.
pub mod Requests
pub mod Fetch
pub mod Answers
pub mod Loads
pub mod Marks
mod Tests
use jira_execution_planner.Base.{
  ℕ, Bool, true, false, ◌&&◌, ◌||◌, not, Option, none, some, List, [], ◌∷◌, ◌++◌, nat_beq,
  if◌then◌else◌,
}
use jira_execution_planner.Base.Lists.{non_empty}
use jira_execution_planner.Base.Text.{Text, text, text_beq, trimmed, or_empty, decimal}
use jira_execution_planner.Planning.Teams.{or_text}
use jira_execution_planner.PriorityScheme.{starts_with}

pub record LoadError : Type 0 where
  pub message : Text
  pub code : Option Text
  pub login_url : Option Text
  pub status : Option ℕ

-- The JSON body of a response that is not `ok`
pub record ErrorBody : Type 0 where
  pub message : Option Text
  pub error : Option Text
  pub login_url : Option Text

abbrev pub has_code : Option Text → Text → Bool
has_code none code = false
has_code (some c) code = text_beq c code

abbrev pub has_status : Option ℕ → ℕ → Bool
has_status none status = false
has_status (some n) status = nat_beq n status

unfoldable pub is_stale_auth_error : LoadError → Bool
is_stale_auth_error err =
    has_code err.code (text "auth_connection_stale") && has_status err.status 401

-- A body that is no JSON counts as `{ error: 'HTTP <status>' }`.
abbrev pub readable : ℕ → Option ErrorBody → ErrorBody
readable status none = record {
  message = none;
  error = some (text "HTTP " ++ decimal status);
  login_url = none;
}
readable status (some body) = body

unfoldable pub build_task_response_error : ℕ → Option ErrorBody → LoadError
build_task_response_error status body =
    let error_data = readable status body in
    record {
      message =
          or_text (or_empty error_data.message)
            (or_text (or_empty error_data.error) (text "Error " ++ decimal status));
      code = error_data.error;
      login_url = error_data.login_url;
      status = some status;
    }

unfoldable pub auth_recovery_login_url : LoadError → Text
auth_recovery_login_url err =
    let login_url = trimmed err.login_url in
    if not (starts_with (text "/login") login_url)
    then []
    else if not (has_status err.status 401) && not (has_code err.code (text "auth_required"))
    then []
    else login_url

unfoldable pub task_load_error_message : LoadError → Text → Text
task_load_error_message err backend_url =
    if has_code err.code (text "route_not_oauth_ready")
    then text
        "OAuth login succeeded, but this dashboard data route has not been migrated to Atlassian OAuth yet. Verify OAuth with the auth status and test endpoints, or use Basic auth for the full dashboard until data routes are migrated."
    else if has_code err.code (text "missing_project_access")
    then text
        "Jira project access is not confirmed for this view. Ask a tool admin to refresh your project access, then retry."
    else if has_code err.code (text "auth_connection_stale")
    then text
        "Your Jira connection changed. I tried refreshing your session, but Jira still needs you to reconnect. Open the reconnect page, then retry."
    else if has_code err.code (text "auth_connection_revoked")
    then text "Your Jira connection was revoked. Reconnect Jira to continue."
    else if has_code err.code (text "account_disabled")
    then text "Your account is disabled. Contact a tool admin before retrying."
    else if has_code err.code (text "missing_oauth_scope")
    then text
        "Your Jira sign-in needs updated permissions. Sign in with Atlassian again to continue."
    else if non_empty (auth_recovery_login_url err)
    then text "Sign in with Atlassian again to continue loading tasks."
    else text "Failed to load tasks: "
      ++ err.message
      ++ text ". Make sure the Python server is running on "
      ++ backend_url
