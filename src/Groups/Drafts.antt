-- ===== src/Groups/Drafts.antt =====
-- frontend/src/settings/useGroupVisibilityPreferences.js: the drafts of the visible groups. The
-- signature is that of groupVisibilityUtils.js.
pub mod Saves
mod Tests
use jira_execution_planner.Base.{
  ℕ, Bool, true, false, ◌&&◌, ◌||◌, not, Option, none, some, List, [], ◌∷◌, ◌++◌, map, nat_beq,
  if◌then◌else◌,
}
use jira_execution_planner.Base.Lists.{filter, any, includes, length, non_empty}
use jira_execution_planner.Base.Text.{
  Text, text, text_beq, text_equality, trimmed, or_empty, decimal,
}
use jira_execution_planner.Base.Sort.{sort}
use jira_execution_planner.Planning.Teams.{or_text, ids_equal}
use jira_execution_planner.IssueStatus.Summary.{bucket_count}
use jira_execution_planner.Groups.{
  Group, GroupsConfig, Preferences, id_or_null, unique_ids, normalize_group_preferences,
  effective_visible_group_ids, resolve_visible_active_group_id, first_run_visible_ids,
  first_run_active_id,
}

abbrev pub some_ids : List Text → Option (List (Option Text))
some_ids ids = some (map (λ id. some id) ids)

-- What `groupPreferencesSignature` turns into a text: different values give different texts.
pub record Signature : Type 0 where
  pub ids : List Text
  pub active : Option Text

unfoldable pub group_preferences_signature : Option (List (Option Text)) → Option Text → Signature
group_preferences_signature visible active = record {
  ids = sort (unique_ids visible);
  active = id_or_null active;
}

abbrev pub same_id : Option Text → Option Text → Bool
same_id none none = true
same_id none (some t) = false
same_id (some s) none = false
same_id (some s) (some t) = text_beq s t

unfoldable pub same_signature : Signature → Signature → Bool
same_signature a b = ids_equal a.ids b.ids && same_id a.active b.active

-- An event of `trackSettingsAction`, with its result and its two counts
pub record DraftEvent : Type 0 where
  pub action : Text
  pub result : Option Text
  pub selection_bucket : Option Text
  pub group_bucket : Option Text

pub record Drafts : Type 0 where
  pub preferences : Preferences
  pub saving : Bool
  pub visible_draft : List Text
  pub first_run_selected : List Text
  pub first_run_saving : Bool
  pub first_run_error : Text
  -- `groupPreferencesBaselineRef.current`, the empty text at first
  pub baseline : Option Signature
  -- What the memo of `isGroupVisibilityDraftDirty` holds: the signature that it was made for, and
  -- its value; nothing before the first render
  pub memo : Option (Signature × Bool)
  pub active_group_id : Option Text
  pub tracked : List DraftEvent

abbrev pub only_id : List Group → List Text
only_id [] = []
only_id (g ∷ []) = or_empty g.id ∷ []
only_id (g ∷ h ∷ groups) = []

-- The effect on a change of `onboardingRequired` or of the groups
unfoldable pub start_first_run : GroupsConfig → Drafts → Drafts
start_first_run config d =
    let default_id = trimmed config.default_group_id in
    let has_default =
      non_empty default_id && any (λ g. text_beq (or_empty g.id) default_id) config.groups in
    record d {
      first_run_error = [];
      first_run_selected =
          if not d.preferences.onboarding_required
          then []
          else if has_default
          then default_id ∷ []
          else only_id config.groups;
    }

abbrev pub or_ids : Option (List (Option Text)) → List Text
or_ids none = []
or_ids (some ids) = map or_empty ids

abbrev pub id_or : Option Text → Option Text → Option Text
id_or none other = other
id_or (some id) other = if non_empty id then some id else other

unfoldable pub initialize_draft : GroupsConfig → Option Text → Drafts → Drafts
initialize_draft normalized current d =
    let initial =
      (if d.preferences.customized
        then or_ids d.preferences.visible_group_ids
        else map (λ g. or_empty g.id) normalized.groups) in
    record d {
      visible_draft = initial;
      baseline = some (
          group_preferences_signature (some_ids initial)
            (id_or d.preferences.active_group_id current));
    }

abbrev pub differs : Option Signature → Signature → Bool
differs none signature = true
differs (some baseline) signature = not (same_signature signature baseline)

abbrev pub draft_signature : Drafts → Signature
draft_signature d = group_preferences_signature (some_ids d.visible_draft) d.active_group_id

-- `React.useMemo` with the draft's signature as its one dependency: the baseline is a ref, so that
-- a change of it alone makes no new value.
abbrev pub memo_for : Option (Signature × Bool) → Option Signature → Signature → Signature × Bool
memo_for none baseline signature = (signature, differs baseline signature)
memo_for (some memo) baseline signature =
    if same_signature signature memo.0 then memo else (signature, differs baseline signature)

unfoldable pub render : Drafts → Drafts
render d = record d { memo = some (memo_for d.memo d.baseline (draft_signature d)) }

-- `isGroupVisibilityDraftDirty` of the last render
abbrev pub memo_value : Option (Signature × Bool) → Bool
memo_value none = false
memo_value (some memo) = memo.1

unfoldable pub is_dirty : Drafts → Bool
is_dirty d = memo_value d.memo

-- `groupDraft?.defaultGroupId === normalizedId`
abbrev pub is_default : Option Text → Text → Bool
is_default default_id id = same_id default_id (some id)

unfoldable pub is_group_visible_in_controls : Option Text → Option Text → Drafts → Bool
is_group_visible_in_controls default_id group_id d =
    let id = trimmed group_id in
    non_empty id && (is_default default_id id || includes id d.visible_draft)

abbrev pub toggled_ids : Text → List Text → List Text
toggled_ids id ids =
    if includes id ids then filter (λ other. not (text_beq other id)) ids else ids ++ id ∷ []

unfoldable pub toggle_group_visible_in_controls : Option Text → Option Text → Drafts → Drafts
toggle_group_visible_in_controls default_id group_id d =
    let id = trimmed group_id in
    if not (non_empty id) || is_default default_id id then d else record d {
      visible_draft = toggled_ids id d.visible_draft;
      tracked =
          record {
            action = text "preference_change";
            result = none;
            selection_bucket = none;
            group_bucket = none;
          }
          ∷ d.tracked;
    }

unfoldable pub toggle_first_run_group : Option Text → Drafts → Drafts
toggle_first_run_group group_id d =
    let id = trimmed group_id in
    if non_empty id
    then record d { first_run_selected = toggled_ids id d.first_run_selected }
    else d
