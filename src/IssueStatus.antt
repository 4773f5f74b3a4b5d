-- ===== src/IssueStatus.antt =====
-- frontend/src/eng/engStatusTransitionUtils.js: the issues of a batch status change. Keys, names
-- and summaries are strings or missing. A Story task keeps its data under `fields`; an epic or a
-- sub-task has it on the object.
pub mod Targets
pub mod Summary
pub mod Verdict
mod Tests
use jira_execution_planner.Base.{
  Bool, true, false, not, ◌&&◌, ◌||◌, Option, none, some, List, [], ◌∷◌, ◌++◌, map, if◌then◌else◌,
}
use jira_execution_planner.Base.Lists.{filter, find, any, includes, non_empty, unique}
use jira_execution_planner.Base.Text.{
  Text, text, text_beq, text_equality, trim, trimmed, lower, upper_key, or_empty,
}
use jira_execution_planner.Base.Dict.{Dict, insert}
use jira_execution_planner.Planning.Teams.{or_text}

pub data StatusValue : Type 0 where
  no_status : StatusValue
  status_text : Text → StatusValue
  -- an object with its `name`
  status_object : Option Text → StatusValue

pub record IssueFields : Type 0 where
  pub status : StatusValue
  pub issue_type_name : Option Text
  pub summary : Option Text

pub record Issue : Type 0 where
  pub key : Option Text
  pub fields : Option IssueFields
  pub status : StatusValue
  pub issue_type : Option Text
  pub summary : Option Text

pub record StatusTarget : Type 0 where
  pub key : Text
  pub issue_type : Text
  pub current_status : Text
  pub summary : Text

-- `group.epic`
pub record EpicEntry : Type 0 where
  pub status : StatusValue
  pub summary : Option Text

pub record StatusEpicGroup : Type 0 where
  pub key : Option Text
  pub epic : Option EpicEntry
  pub parent_summary : Option Text

-- `normalizeStatusTargetKey` of a key that is there
abbrev pub normalize_status_target_key : Text → Text
normalize_status_target_key key = upper_key (some key)

unfoldable pub issue_status_name : StatusValue → Text
issue_status_name no_status = []
issue_status_name (status_text name) = name
issue_status_name (status_object name) = or_empty name

abbrev pub status_of : Issue → Option IssueFields → StatusValue
status_of issue none = issue.status
status_of issue (some fields) = fields.status

abbrev pub type_in : Option IssueFields → Text
type_in none = []
type_in (some fields) = or_empty fields.issue_type_name

abbrev pub summary_in : Option IssueFields → Text
summary_in none = []
summary_in (some fields) = or_empty fields.summary

unfoldable pub build_catch_up_status_targets : Issue → Text → Option StatusTarget
build_catch_up_status_targets issue fallback_issue_type =
    let key = trimmed issue.key in
    if non_empty key
    then some (record {
      key = key;
      issue_type =
          or_text (type_in issue.fields) (or_text (or_empty issue.issue_type) fallback_issue_type);
      current_status = issue_status_name (status_of issue issue.fields);
      summary = or_text (summary_in issue.fields) (or_empty issue.summary);
    })
    else none

unfoldable pub find_epic_group_by_key : List StatusEpicGroup → Text → Option StatusEpicGroup
find_epic_group_by_key epic_groups key =
    find (λ group. text_beq (upper_key group.key) (normalize_status_target_key key)) epic_groups

-- `{ key }`
abbrev pub bare_issue : Text → Issue
bare_issue key = record {
  key = some key;
  fields = none;
  status = no_status;
  issue_type = none;
  summary = none;
}

abbrev pub entry_status : Option EpicEntry → StatusValue
entry_status none = no_status
entry_status (some entry) = entry.status

abbrev pub entry_summary : Option EpicEntry → Text
entry_summary none = []
entry_summary (some entry) = or_empty entry.summary

-- The issue that stands for a selected epic, whose group may be missing
unfoldable pub epic_issue : Text → Option StatusEpicGroup → Issue
epic_issue key none = record (bare_issue key) { summary = some [] }
epic_issue key (some group) = record {
  key = some (or_text (or_empty group.key) key);
  fields = none;
  status = entry_status group.epic;
  issue_type = none;
  summary = some (or_text (entry_summary group.epic) (or_empty group.parent_summary));
}

-- `list.filter(Boolean)`
abbrev pub present : List (Option StatusTarget) → List StatusTarget
present [] = []
present (none ∷ targets) = present targets
present (some target ∷ targets) = target ∷ present targets

unfoldable pub resolve_epic_status_targets : List Text → List StatusEpicGroup → List StatusTarget
resolve_epic_status_targets selected_epic_keys epic_groups = present (
    map
      (λ key.
        build_catch_up_status_targets (epic_issue key (find_epic_group_by_key epic_groups key))
          (text "Epic"))
      selected_epic_keys)

abbrev pub items_of : Option (List Issue) → List Issue
items_of none = []
items_of (some items) = items

-- The subtasks of each story, where they were loaded
unfoldable pub find_subtask_item_by_key : Dict (Option (List Issue)) → Text → Option Issue
find_subtask_item_by_key [] key = none
find_subtask_item_by_key ((story_key, items) ∷ stories) key =
    let rest = find_subtask_item_by_key stories key in
    elim (find (λ (item : Issue). text_beq (upper_key item.key) (normalize_status_target_key key))
      (items_of items)) [ none ↦ rest | some item ↦ some item ]

abbrev pub issue_or : Issue → Option Issue → Issue
issue_or issue none = issue
issue_or issue (some found) = found

unfoldable pub resolve_subtask_status_targets :
    List Text → Dict (Option (List Issue)) → List StatusTarget
resolve_subtask_status_targets selected_subtask_keys story_subtasks = present (
    map
      (λ key.
        build_catch_up_status_targets
          (issue_or (bare_issue key) (find_subtask_item_by_key story_subtasks key))
          (text "Subtask"))
      selected_subtask_keys)

-- One list, entered into the map
unfoldable pub enter_targets : List StatusTarget → Dict StatusTarget → Dict StatusTarget
enter_targets [] by_key = by_key
enter_targets (target ∷ targets) by_key = enter_targets targets (
    if non_empty target.key
    then insert (normalize_status_target_key target.key) target by_key
    else by_key)

unfoldable pub enter_lists : List (List StatusTarget) → Dict StatusTarget → Dict StatusTarget
enter_lists [] by_key = by_key
enter_lists (list ∷ lists) by_key = enter_lists lists (enter_targets list by_key)

-- `Array.from(byKey.values())`
abbrev pub values : Dict StatusTarget → List StatusTarget
values by_key = map (λ entry. entry.1) by_key

-- The lists come in rising precedence.
unfoldable pub dedupe_status_targets_by_precedence : List (List StatusTarget) → List StatusTarget
dedupe_status_targets_by_precedence lists = values (enter_lists lists [])

unfoldable pub build_eng_status_targets :
    List Issue
    → List Text
    → List Text
    → List StatusEpicGroup
    → Dict (Option (List Issue))
    → List StatusTarget
build_eng_status_targets selected_tasks selected_epic_keys selected_subtask_keys epic_groups
      story_subtasks =
    let story_targets =
      present (map (λ task. build_catch_up_status_targets task (text "Story")) selected_tasks) in
    dedupe_status_targets_by_precedence (
      resolve_subtask_status_targets selected_subtask_keys story_subtasks
      ∷ story_targets
      ∷ resolve_epic_status_targets selected_epic_keys epic_groups
      ∷ [])

unfoldable pub wanted_keys : List Text → List Text
wanted_keys subtask_keys = unique (filter non_empty (map normalize_status_target_key subtask_keys))

abbrev pub parents_in : List Text → Dict (Option (List Issue)) → List Text
parents_in wanted [] = []
parents_in wanted ((story_key, items) ∷ stories) =
    let rest = parents_in wanted stories in
    if any (λ (item : Issue). includes (upper_key item.key) wanted) (items_of items)
    then story_key ∷ rest
    else rest

unfoldable pub resolve_subtask_parent_story_keys :
    List Text → Dict (Option (List Issue)) → List Text
resolve_subtask_parent_story_keys subtask_keys story_subtasks =
    let wanted = wanted_keys subtask_keys in
    if non_empty wanted then unique (parents_in wanted story_subtasks) else []
