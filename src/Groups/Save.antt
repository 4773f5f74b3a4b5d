-- ===== src/Groups/Save.antt =====
-- frontend/src/settings/sharedExcludedCapacityToggle.js: the toggle of an epic from the board,
-- up to its request and after the answer. Between the two other code may run.
-- A saved configuration, the state of a group and an entry of the capacity cache are values of
-- the types `P`, `S` and `C`.
use jira_execution_planner.Base.{
  ℕ, Bool, ◌&&◌, ◌||◌, not, Option, none, some, List, [], ◌∷◌, ◌++◌, nat_beq, if◌then◌else◌,
}
use jira_execution_planner.Base.Lists.{non_empty}
use jira_execution_planner.Base.Text.{Text, text, upper_key, or_empty, decimal, join}
use jira_execution_planner.Base.Dict.{Dict, remove}
use jira_execution_planner.Planning.Teams.{or_text}
use jira_execution_planner.Groups.{Group, GroupsConfig, Revision, version_or_one}
use jira_execution_planner.Groups.Toggle.{
  Toggled, build_groups_config_with_excluded_capacity_toggle,
}

pub record Tracked : Type 0 where
  pub action : Text
  pub source_surface : Text
  pub detail : Text

-- What the callbacks and refs of the dashboard receive, the latest first.
pub record Board {ℓ} (P S C : Type ℓ) : Type ℓ where
  pub draft_error : Text
  pub applied : List P
  pub tracked : List Tracked
  pub group_state : Dict S
  pub capacity_cache : Dict C

pub record SharedGroupsPayload : Type 0 where
  pub version : ℕ
  pub base_revision : Revision
  pub groups : List Group
  pub default_group_id : Text

unfoldable pub build_shared_groups_payload : GroupsConfig → SharedGroupsPayload
build_shared_groups_payload config = record {
  version = version_or_one config.version;
  base_revision = config.config_revision;
  groups = config.groups;
  default_group_id = or_empty config.default_group_id;
}

-- The arguments of `saveSharedExcludedCapacityToggle` that it only reads.
pub record ToggleRequest : Type 0 where
  pub epic_key : Option Text
  pub active_group_id : Option Text
  pub can_edit_shared_configuration : Bool
  pub show_group_manage : Bool
  pub is_group_draft_dirty : Bool
  pub show_planning : Bool
  pub groups_config : GroupsConfig

abbrev pub source_surface : Bool → Text
source_surface show_planning = if show_planning then text "planning" else text "statistics"

module _ {ℓ} {P S C : Type ℓ} where
  unfoldable pub track_settings_action : Text → Text → Text → Board P S C → Board P S C
  track_settings_action action surface detail board = record board {
    tracked = record { action = action; source_surface = surface; detail = detail } ∷ board.tracked;
  }

  -- `setGroupDraftError(message)` and the tracked failure
  unfoldable pub fail_with : Text → Text → Text → Board P S C → Board P S C
  fail_with action surface message board =
      track_settings_action action surface (text "failure") (record board { draft_error = message })

  -- After the toggle: the request, if there is one.
  unfoldable pub send_toggled :
      Text → Toggled → Board P S C → Board P S C × Option SharedGroupsPayload
  send_toggled surface toggled board =
      let failed =
        fail_with (text "toggle_excluded_capacity") surface (or_empty toggled.error) board in
      let detail = (if toggled.next_excluded then text "selected" else text "cleared") in
      let sent =
        track_settings_action (text "toggle_excluded_capacity") surface detail
          (record board { draft_error = [] }) in
      if non_empty (or_empty toggled.error)
      then (failed, none)
      else if not toggled.changed
      then (board, none)
      else (sent, some (build_shared_groups_payload toggled.config))

  unfoldable pub begin_toggle :
      ToggleRequest → Board P S C → Board P S C × Option SharedGroupsPayload
  begin_toggle r board =
      let surface = source_surface r.show_planning in
      let toggled =
        build_groups_config_with_excluded_capacity_toggle r.groups_config r.active_group_id
          (some (upper_key r.epic_key)) in
      let forbidden =
        fail_with (text "toggle_excluded_capacity") surface
          (text "You do not have permission to edit shared department configuration.") board in
      let dirty =
        fail_with (text "toggle_excluded_capacity") surface
          (text
            "Save or discard open Department settings changes before changing excluded capacity from the board.")
          board in
      if not (non_empty (upper_key r.epic_key)) || not (non_empty (or_empty r.active_group_id))
      then (board, none)
      else if not r.can_edit_shared_configuration
      then (forbidden, none)
      else if r.show_group_manage && r.is_group_draft_dirty
      then (dirty, none)
      else send_toggled surface toggled board

pub record ErrorPayload {ℓ} (P : Type ℓ) : Type ℓ where
  pub current : Option P
  pub message : Option Text
  pub errors : Option (List Text)
  pub error : Option Text

-- What becomes of the request: it throws, or its answer is saved, not `ok`, or cannot be read.
pub data SaveResponse {ℓ} (P : Type ℓ) : Type ℓ where
  saved : P → SaveResponse P
  threw : Option Text → SaveResponse P
  rejected : ℕ → ErrorPayload P → SaveResponse P

abbrev pub errors_or_empty : Option (List Text) → List Text
errors_or_empty none = []
errors_or_empty (some errors) = errors

unfoldable pub rejection_message {ℓ} : {P : Type ℓ} → ℕ → ErrorPayload P → Text
rejection_message status payload = or_text (or_empty payload.message) (
    or_text (join (text " ") (errors_or_empty payload.errors))
      (or_text (or_empty payload.error) (text "Save failed (" ++ (decimal status ++ text ")"))))

abbrev pub conflict_message : Text
conflict_message =
    text
      "Department groups were changed by another user. Reloaded latest group configuration; retry the excluded-capacity change."

module _ {ℓ} {P S C : Type ℓ} where
  unfoldable pub reject : ℕ → ErrorPayload P → Text → Option P → Board P S C → Board P S C
  reject status payload surface none board =
      fail_with (text "toggle_excluded_capacity_result") surface (rejection_message status payload)
        board
  reject status payload surface (some current) board =
      let conflict =
        fail_with (text "toggle_excluded_capacity_result") surface conflict_message
          (record board { applied = current ∷ board.applied }) in
      let refused =
        fail_with (text "toggle_excluded_capacity_result") surface
          (rejection_message status payload) board in
      if nat_beq status 409 then conflict else refused

  unfoldable pub finish_toggle : Text → Text → SaveResponse P → Board P S C → Board P S C
  finish_toggle active_group_id surface (saved payload) board =
      track_settings_action (text "toggle_excluded_capacity_result") surface (text "success")
        (record board {
          applied = payload ∷ board.applied;
          group_state = remove active_group_id board.group_state;
          capacity_cache = [];
        })
  finish_toggle active_group_id surface (threw message) board =
      fail_with (text "toggle_excluded_capacity_result") surface
        (or_text (or_empty message) (text "Failed to update excluded capacity.")) board
  finish_toggle active_group_id surface (rejected status payload) board =
      reject status payload surface payload.current board
