-- ===== src/Groups/Drafts/Saves.antt =====
-- The saves of frontend/src/settings/useGroupVisibilityPreferences.js. A save is cut at its request;
-- its answer comes as an argument. The counts that a save tracks are those of the drafts when it is
-- answered.
use jira_execution_planner.Base.{
  ℕ, Bool, true, false, Option, none, some, List, [], ◌∷◌, ◌++◌, if◌then◌else◌,
}
use jira_execution_planner.Base.Lists.{length, non_empty}
use jira_execution_planner.Base.Text.{Text, text, text_equality, or_empty, decimal}
use jira_execution_planner.Planning.Teams.{or_text}
use jira_execution_planner.IssueStatus.Summary.{bucket_count}
use jira_execution_planner.Groups.{
  GroupsConfig, Preferences, id_or_null, unique_ids, normalize_group_preferences,
  effective_visible_group_ids, resolve_visible_active_group_id, first_run_visible_ids,
  first_run_active_id,
}
use jira_execution_planner.Groups.Drafts.{
  some_ids, group_preferences_signature, DraftEvent, Drafts, or_ids, id_or,
}

-- An answer to the PUT: the preferences, a response that is not `ok` with the message and the
-- error of its body, or a rejection with its message.
pub data SaveAnswer : Type 0 where
  saved : Preferences → SaveAnswer
  refused : ℕ → Option Text → Option Text → SaveAnswer
  failed : Option Text → SaveAnswer

abbrev pub failure_message : ℕ → Option Text → Option Text → Text
failure_message status message error =
    or_text (or_empty message)
      (or_text (or_empty error) (text "Preference save failed (" ++ decimal status ++ text ")"))

-- The preferences that came back, in both saves
unfoldable pub adopt : GroupsConfig → Preferences → Drafts → Drafts
adopt config answered d =
    let next = normalize_group_preferences answered in
    record d {
      preferences = next;
      visible_draft = or_ids next.visible_group_ids;
      baseline = some (group_preferences_signature next.visible_group_ids next.active_group_id);
      active_group_id =
          resolve_visible_active_group_id config
            (some_ids (effective_visible_group_ids config next))
            (id_or next.active_group_id d.active_group_id);
    }

abbrev pub fail_first_run : Option Text → Drafts → Drafts
fail_first_run message d = record d {
  first_run_error = or_text (or_empty message) (text "Failed to save departments.");
  tracked =
      record {
        action = text "save_result";
        result = some (text "failure");
        selection_bucket = none;
        group_bucket = none;
      }
      ∷ d.tracked;
}

abbrev pub end_first_run : GroupsConfig → SaveAnswer → Drafts → Drafts
end_first_run config (saved answered) d =
    let adopted = adopt config answered d in
    record adopted {
      tracked =
          record {
            action = text "first_run_selection";
            result = none;
            selection_bucket = some (bucket_count (length d.first_run_selected));
            group_bucket = some (bucket_count (length config.groups));
          }
          ∷ d.tracked;
    }
end_first_run config (refused status message error) d =
    fail_first_run (some (failure_message status message error)) d
end_first_run config (failed message) d = fail_first_run message d

-- The body of the PUT, and the state while it is on its way; no request without a selection
unfoldable pub begin_first_run : GroupsConfig → Drafts → Option (List Text × Option Text) × Drafts
begin_first_run config d =
    let selected = some_ids d.first_run_selected in
    if non_empty d.first_run_selected
    then (
      some (
        first_run_visible_ids selected config.default_group_id,
        first_run_active_id selected config.default_group_id,
      ),
      record d { first_run_saving = true; first_run_error = [] },
    )
    else (none, d)

unfoldable pub finish_first_run : GroupsConfig → SaveAnswer → Drafts → Drafts
finish_first_run config answer d = record (end_first_run config answer d) {
  first_run_saving = false;
}

abbrev pub success_event : Drafts → DraftEvent
success_event d = record {
  action = text "preference_change";
  result = some (text "success");
  selection_bucket = some (bucket_count (length d.visible_draft));
  group_bucket = none;
}

-- `persistGroupPreferences` without a backend for preferences
unfoldable pub persist_locally : GroupsConfig → Drafts → Drafts
persist_locally normalized d =
    let visible = some_ids (unique_ids (some_ids d.visible_draft)) in
    let draft : Preferences = record {
      customized = true;
      preference_exists = true;
      onboarding_required = false;
      visible_group_ids = visible;
      effective_visible_group_ids = none;
      active_group_id = id_or_null d.active_group_id;
    } in
    let effective = some_ids (effective_visible_group_ids normalized draft) in
    let next_active = resolve_visible_active_group_id normalized effective draft.active_group_id in
    record d {
      preferences = record draft {
        active_group_id = next_active;
        effective_visible_group_ids = effective;
      };
      visible_draft = unique_ids (some_ids d.visible_draft);
      baseline = some (group_preferences_signature visible next_active);
      active_group_id =
          resolve_visible_active_group_id normalized effective
            (id_or next_active d.active_group_id);
      saving = false;
      tracked = success_event d ∷ d.tracked;
    }

-- `persistGroupPreferences` with one: its request is the draft and the active group. A failure is
-- thrown to the caller, with the drafts as they were.
unfoldable pub finish_persist : GroupsConfig → SaveAnswer → Drafts → Bool × Drafts
finish_persist normalized (saved answered) d = (
  true,
  record (adopt normalized answered d) { saving = false; tracked = success_event d ∷ d.tracked },
)
finish_persist normalized (refused status message error) d = (false, record d { saving = false })
finish_persist normalized (failed message) d = (false, record d { saving = false })
