-- ===== src/Groups/Drafts/Tests.antt =====
-- The drafts of a user with two groups: toggles, a first run and the saves.
use jira_execution_planner.Base.{if◌then◌else◌, ◌≡◌, refl, true, false, none, some, [], ◌∷◌}
use jira_execution_planner.Base.Lists.{unique_from}
use jira_execution_planner.Base.Text.{Text, text, text_beq, text_le, trim, trimmed, decimal, digits}
use jira_execution_planner.Base.Sort.{sort, sort_by, insert_sorted}
use jira_execution_planner.Planning.Teams.{ids_equal}
use jira_execution_planner.IssueStatus.Summary.{bucket_count}
use jira_execution_planner.Groups.{
  Group, EpicKeys, GroupsConfig, Preferences, Revision, id_or_null, unique_ids, group_ids,
  add_known, effective_visible_group_ids, visible_groups_for_controls,
  resolve_visible_active_group_id, normalize_group_preferences, first_run_visible_ids,
  first_run_active_id,
}
use jira_execution_planner.Groups.Visible.{IsOffered}
use jira_execution_planner.Groups.Drafts.{
  Drafts, group_preferences_signature, same_signature, start_first_run, initialize_draft, is_dirty,
  draft_signature, render, is_group_visible_in_controls, toggle_group_visible_in_controls,
  toggle_first_run_group,
}
use jira_execution_planner.Groups.Drafts.Saves.{
  adopt, begin_first_run, finish_first_run, persist_locally, finish_persist, SaveAnswer,
}
use jira_execution_planner.Groups.Clean.{persist_locally-IsOffered}

program : Unit {0}
unfolding text_beq text_le trim trimmed decimal digits unique_from sort sort_by insert_sorted
    ids_equal bucket_count id_or_null unique_ids group_ids add_known effective_visible_group_ids
    visible_groups_for_controls resolve_visible_active_group_id normalize_group_preferences
    first_run_visible_ids first_run_active_id group_preferences_signature same_signature
    start_first_run initialize_draft is_dirty render is_group_visible_in_controls
    toggle_group_visible_in_controls toggle_first_run_group adopt begin_first_run finish_first_run
    persist_locally finish_persist
program = tt

abbrev group_of : Text → Group
group_of id = record {
  id = some id;
  name = some id;
  team_ids = none;
  missing_info_components = none;
  missing_info_component = none;
  excluded_capacity_epics = EpicKeys.other;
  ad_hoc_capacity_epics = EpicKeys.other;
  team_labels = [];
}

abbrev unset : Preferences
unset = record {
  preference_exists = false;
  customized = false;
  onboarding_required = false;
  visible_group_ids = none;
  effective_visible_group_ids = none;
  active_group_id = none;
}

abbrev config : GroupsConfig
config = record {
  version = none;
  groups = group_of (text "core") ∷ group_of (text "data") ∷ [];
  default_group_id = some (text "core");
  config_revision = Revision.undefined;
  source = none;
  preferences = unset;
}

abbrev fresh : Drafts
fresh = record {
  preferences = unset;
  saving = false;
  visible_draft = [];
  first_run_selected = [];
  first_run_saving = false;
  first_run_error = [];
  baseline = none;
  memo = none;
  active_group_id = some (text "data");
  tracked = [];
}

abbrev opened : Drafts
opened = render (initialize_draft config fresh.active_group_id (render fresh))

dirty-opened : is_dirty opened ≡ false
unfolding program
dirty-opened = refl

abbrev hidden : Drafts
hidden = render (toggle_group_visible_in_controls (some (text "core")) (some (text " data")) opened)

dirty-hidden : is_dirty hidden ≡ true
unfolding program
dirty-hidden = refl

visible-core :
    is_group_visible_in_controls
      (some (text "core"))
      (some (text "core"))
      (record hidden { visible_draft = [] })
    ≡ true
unfolding program
visible-core = refl

active-hidden : (persist_locally config hidden).active_group_id ≡ some (text "core")
unfolding program
active-hidden = refl

first-selected :
    (start_first_run config (record fresh {
      preferences = record unset { onboarding_required = true };
    })).first_run_selected
    ≡ text "core" ∷ []
unfolding program
first-selected = refl

first-error :
    (finish_first_run config (SaveAnswer.refused 500 none none) opened).first_run_error
    ≡ text "Preference save failed (500)"
unfolding program
first-error = refl

persist-failed : (finish_persist config (SaveAnswer.failed none) hidden).0 ≡ false
unfolding program
persist-failed = refl

abbrev after_save : Drafts
after_save = render (persist_locally config (render hidden))

dirty-after_save : is_dirty after_save ≡ false
unfolding program
dirty-after_save = refl

-- With `core` active before, the save changes no signature, and the draft stays dirty.
dirty-same_signature :
    is_dirty (
      render
        (persist_locally config (render (record hidden { active_group_id = some (text "core") }))))
    ≡ true
unfolding program
dirty-same_signature = refl

persist_locally-IsOffered_example :
    IsOffered (visible_groups_for_controls config after_save.preferences) after_save.active_group_id
    × (is_dirty after_save ≡ (
        if same_signature (draft_signature after_save) (draft_signature (render hidden))
        then is_dirty (render hidden)
        else false))
persist_locally-IsOffered_example = persist_locally-IsOffered config hidden
