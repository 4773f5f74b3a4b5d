-- ===== src/Groups/Tests.antt =====
-- The groups, the toggle and its request on small inputs.
use jira_execution_planner.Base.{ℕ, ◌≡◌, ◌⊎◌, refl, List, true, false, none, some, [], ◌∷◌}
use jira_execution_planner.Base.Lists.{All, includes, unique_from}
use jira_execution_planner.Base.Text.{
  Text, text, text_beq, text_equality, trim, trimmed, upper, lower, upper_key, decimal, digits,
  join,
}
use jira_execution_planner.Base.Dict.{lookup, remove}
use jira_execution_planner.Groups.{
  Group, EpicKeys, Preferences, GroupsConfig, Revision, unique_ids, group_ids, normalize_epic_keys,
  add_known, effective_visible_group_ids, visible_groups_for_controls,
  resolve_visible_active_group_id, id_or_null, resolve_initial_group_id,
}
use jira_execution_planner.Groups.NewId.{
  build_group_id, next_free, numbered, slug, dash_runs, drop_first_dash, drop_last_dash,
  parse_team_id_list, split_commas, build_group_id-is_free,
}
use jira_execution_planner.Groups.Toggle.{
  is_target, is_blocked, toggled_keys, toggle_group, excluded_after, Toggled, blocked_text,
  build_groups_config_with_excluded_capacity_toggle,
}
use jira_execution_planner.Groups.Flip.{Pointwise, Flipped}
use jira_execution_planner.Groups.Exclude.{IsClear, toggle-Flipped, toggle-IsClear}
use jira_execution_planner.Groups.Save.{
  Board, ToggleRequest, SharedGroupsPayload, build_shared_groups_payload, begin_toggle,
  send_toggled, fail_with, track_settings_action, finish_toggle, reject, rejection_message,
  SaveResponse, rejected, conflict_message,
}
use jira_execution_planner.Groups.Outcome.{IsPermitted, begin_toggle-IsPermitted}

program : Unit {0}
unfolding build_group_id next_free numbered slug dash_runs drop_first_dash drop_last_dash
    parse_team_id_list split_commas text_beq lower trim trimmed upper upper_key decimal digits join
    lookup remove unique_from unique_ids group_ids normalize_epic_keys add_known
    effective_visible_group_ids visible_groups_for_controls resolve_visible_active_group_id
    id_or_null resolve_initial_group_id is_target is_blocked toggled_keys toggle_group
    excluded_after build_groups_config_with_excluded_capacity_toggle build_shared_groups_payload
    begin_toggle send_toggled fail_with track_settings_action finish_toggle reject rejection_message
program = tt

abbrev group_of : Text → Text → EpicKeys → EpicKeys → Group
group_of id name excluded ad_hoc = record {
  id = some id;
  name = some name;
  team_ids = none;
  missing_info_components = none;
  missing_info_component = none;
  excluded_capacity_epics = excluded;
  ad_hoc_capacity_epics = ad_hoc;
  team_labels = [];
}

abbrev core : Group
core =
    group_of (text " core ") (text "Core") (EpicKeys.many (some (text "a-1") ∷ [])) EpicKeys.other

abbrev data_group : Group
data_group = group_of (text "data") (text "Default") EpicKeys.other (EpicKeys.single (text "b-2"))

abbrev customised : Preferences
customised = record {
  preference_exists = true;
  customized = true;
  onboarding_required = false;
  visible_group_ids = some (some (text "gone") ∷ some (text "data") ∷ []);
  effective_visible_group_ids = none;
  active_group_id = none;
}

abbrev sample : GroupsConfig
sample = record {
  version = some 3;
  groups = core ∷ data_group ∷ [];
  default_group_id = some (text "core");
  config_revision = Revision.number 7;
  source = none;
  preferences = customised;
}

abbrev toggled : Text → Text → Toggled
toggled group epic =
    build_groups_config_with_excluded_capacity_toggle sample (some group) (some epic)

effective-sample : effective_visible_group_ids sample customised ≡ text "core" ∷ text "data" ∷ []
unfolding program
effective-sample = refl

initial-sample : resolve_initial_group_id sample ≡ some (text "data")
unfolding program
initial-sample = refl

blocked-sample : (toggled (text "data") (text "b-2 ")).error ≡ some (blocked_text (text "B-2"))
unfolding program
blocked-sample = refl

changed-sample : (toggled (text "core") (text "c-3")).changed ≡ true
unfolding program
changed-sample = refl

changed_again :
    (build_groups_config_with_excluded_capacity_toggle
      (toggled (text "core") (text "c-3")).config
      (some (text "core"))
      (some (text "c-3"))).changed
    ≡ true
unfolding program
changed_again = refl

sample-IsClear : All IsClear sample.groups
unfolding program
sample-IsClear = (λ k h. refl, (λ k h. cc, tt))

toggle-Flipped_example :
    Pointwise
      (Flipped (trimmed (some (text "core"))) (upper_key (some (text "c-3"))))
      sample.groups
      (toggled (text "core") (text "c-3")).config.groups
toggle-Flipped_example =
    toggle-Flipped sample (some (text "core")) (some (text "c-3")) changed-sample

toggle-IsClear_example : All IsClear (toggled (text "core") (text "c-3")).config.groups
toggle-IsClear_example =
    toggle-IsClear sample (some (text "core")) (some (text "c-3")) sample-IsClear

abbrev board : Board ℕ ℕ ℕ
board = record {
  draft_error = [];
  applied = [];
  tracked = [];
  group_state = (text "core", 1) ∷ (text "data", 2) ∷ [];
  capacity_cache = (text "core", 5) ∷ [];
}

abbrev conflict : SaveResponse ℕ
conflict = rejected 409 (record { current = some 8; message = none; errors = none; error = none })

abbrev plain_refusal : SaveResponse ℕ
plain_refusal =
    rejected 503 (record { current = none; message = none; errors = none; error = none })

conflict_error :
    (finish_toggle (text "core") (text "planning") conflict board).draft_error ≡ conflict_message
unfolding program
conflict_error = refl

refusal_error :
    (finish_toggle (text "core") (text "planning") plain_refusal board).draft_error
    ≡ text "Save failed (503)"
unfolding program
refusal_error = refl

abbrev wish : ToggleRequest
wish = record {
  epic_key = some (text "c-3");
  active_group_id = some (text "core");
  can_edit_shared_configuration = true;
  show_group_manage = false;
  is_group_draft_dirty = true;
  show_planning = true;
  groups_config = sample;
}

abbrev payload : SharedGroupsPayload
payload = build_shared_groups_payload (toggled (text "core") (text "c-3")).config

begin-wish : (begin_toggle wish board).1 ≡ some payload
unfolding program
begin-wish = refl

begin_toggle-IsPermitted_example : IsPermitted wish payload
begin_toggle-IsPermitted_example = begin_toggle-IsPermitted wish board payload begin-wish

abbrev taken : List Text
taken = text "core-team" ∷ text "core-team-1" ∷ []

new_id-taken : build_group_id (some (text " Core  Team!")) taken ≡ text "core-team-2"
unfolding program
new_id-taken = refl

parse-blanks : parse_team_id_list (some (text " 7 ,, 8")) ≡ text "7" ∷ text "8" ∷ []
unfolding program
parse-blanks = refl

build_group_id_example :
    (includes (build_group_id (some (text " Core  Team!")) taken) taken ≡ false)
    × ((build_group_id (some (text " Core  Team!")) taken ≡ slug (some (text " Core  Team!")))
        ⊎ ((i : ℕ) × (build_group_id (some (text " Core  Team!")) taken
              ≡ numbered (slug (some (text " Core  Team!"))) i)))
build_group_id_example = build_group_id-is_free (some (text " Core  Team!")) taken
