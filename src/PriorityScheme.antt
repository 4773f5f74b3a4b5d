-- ===== src/PriorityScheme.antt =====
-- frontend/src/eng/engPriorityTransitionUtils.js: the priorities that an issue can have. Keys,
-- names and ids are strings or missing, and ranks are natural numbers or missing.
pub mod Cache
pub mod Waiting
pub mod Shared
mod Tests
use jira_execution_planner.Base.{
  ℕ, Bool, true, false, ◌&&◌, ◌||◌, not, Option, none, some, List, [], ◌∷◌, ◌++◌, map, leb, nat_beq,
  if◌then◌else◌,
}
use jira_execution_planner.Base.Lists.{find, any, non_empty}
use jira_execution_planner.Base.Text.{Text, text, text_beq, trim, trimmed, lower, or_empty}
use jira_execution_planner.Base.Sort.{sort_by}
use jira_execution_planner.Planning.Teams.{or_text}
use jira_execution_planner.PlanningStats.{before_dash}
use jira_execution_planner.IssueStatus.Summary.{TransitionSummary, summarize_results}

pub data PriorityValue : Type 0 where
  no_priority : PriorityValue
  priority_text : Text → PriorityValue
  priority_object : Option Text → PriorityValue

pub record PriorityFields : Type 0 where
  pub priority : PriorityValue
  pub issue_type_name : Option Text
  pub summary : Option Text

pub record PriorityIssue : Type 0 where
  pub key : Option Text
  pub fields : Option PriorityFields
  pub priority : PriorityValue
  pub issue_type : Option Text
  pub summary : Option Text

pub record PriorityTarget : Type 0 where
  pub key : Text
  pub issue_type : Text
  pub current_priority : Text
  pub summary : Text

unfoldable pub issue_priority_name : PriorityValue → Text
issue_priority_name no_priority = []
issue_priority_name (priority_text name) = name
issue_priority_name (priority_object name) = or_empty name

-- The priority, the type and the summary under `fields`, or else those of the issue
abbrev pub priority_of : PriorityIssue → Option PriorityFields → PriorityValue
priority_of issue none = issue.priority
priority_of issue (some fields) = fields.priority

abbrev pub field_type : Option PriorityFields → Text
field_type none = []
field_type (some fields) = or_empty fields.issue_type_name

abbrev pub field_summary : Option PriorityFields → Text
field_summary none = []
field_summary (some fields) = or_empty fields.summary

unfoldable pub build_catch_up_priority_targets : PriorityIssue → Text → Option PriorityTarget
build_catch_up_priority_targets issue fallback_issue_type =
    let key = trimmed issue.key in
    if non_empty key
    then some (record {
      key = key;
      issue_type =
          or_text (field_type issue.fields)
            (or_text (or_empty issue.issue_type) fallback_issue_type);
      current_priority = issue_priority_name (priority_of issue issue.fields);
      summary = or_text (field_summary issue.fields) (or_empty issue.summary);
    })
    else none

unfoldable pub starts_with : Text → Text → Bool
starts_with [] s = true
starts_with (c ∷ t) [] = false
starts_with (c ∷ t) (d ∷ s) = nat_beq c d && starts_with t s

-- `s.includes(t)`
unfoldable pub text_includes : Text → Text → Bool
text_includes [] t = starts_with t []
text_includes (c ∷ s) t = starts_with t (c ∷ s) || text_includes s t

abbrev pub recognized_priority_icon_tokens : List Text
recognized_priority_icon_tokens =
    text "blocker"
    ∷ text "critical"
    ∷ text "highest"
    ∷ text "high"
    ∷ text "major"
    ∷ text "medium"
    ∷ text "minor"
    ∷ text "lowest"
    ∷ text "low"
    ∷ text "trivial"
    ∷ []

unfoldable pub is_recognized_priority_icon_name : Option Text → Bool
is_recognized_priority_icon_name name =
    let normalized = lower (trimmed name) in
    non_empty normalized && any (text_includes normalized) recognized_priority_icon_tokens

-- The arguments are the key, `projectKey` and `issueType` of the target.
unfoldable pub priority_option_cache_key : Option Text → Option Text → Option Text → Text
priority_option_cache_key key target_project_key target_issue_type =
    let project_key = or_text (or_empty target_project_key) (before_dash (trimmed key)) in
    let issue_type = trimmed target_issue_type in
    if not (non_empty project_key) && not (non_empty issue_type)
    then text "key:" ++ trimmed key
    else project_key ++ text "|" ++ issue_type

pub record PriorityOption : Type 0 where
  pub id : Option Text
  pub name : Option Text
  pub rank : Option ℕ

abbrev pub rank_or_zero : Option ℕ → ℕ
rank_or_zero none = 0
rank_or_zero (some n) = n

unfoldable pub sort_priority_options_by_rank : List PriorityOption → List PriorityOption
sort_priority_options_by_rank priorities =
    sort_by (λ a b. leb (rank_or_zero a.rank) (rank_or_zero b.rank)) priorities

-- The rank of the option that was found; `Number(undefined)` is not finite.
abbrev pub rank_of : Option PriorityOption → Option ℕ
rank_of none = none
rank_of (some option) = option.rank

unfoldable pub resolve_priority_rank : List PriorityOption → Option Text → Option ℕ
resolve_priority_rank priority_options priority_id =
    let id = trimmed priority_id in
    if non_empty id
    then rank_of (find (λ option. text_beq (or_empty option.id) id) priority_options)
    else none

abbrev pub bucket_of_rank : ℕ → Text
bucket_of_rank rank =
    if nat_beq rank 10
    then text "highest"
    else if nat_beq rank 20
    then text "high"
    else if nat_beq rank 30
    then text "medium"
    else if nat_beq rank 40
    then text "low"
    else if nat_beq rank 50
    then text "lowest"
    else text "other"

unfoldable pub build_priority_bucket : Option ℕ → Text
build_priority_bucket rank = bucket_of_rank (rank_or_zero rank)

unfoldable pub summarize_priority_transition_results : List (Option Text) → TransitionSummary
summarize_priority_transition_results results =
    summarize_results (text "already_in_priority") results

-- A story task of which only the key and the priority matter here; `P` is a priority object.
pub record RankedStory (P : Type 0) : Type 0 where
  pub key : Text
  pub priority : P

-- `list.map(...)`, of a patch that is there
abbrev pub patched : {P : Type 0} → Text → P → RankedStory P → RankedStory P
patched key patch task = if text_beq task.key key then record task { priority = patch } else task

unfoldable pub apply_local_priority_update :
    {P : Type 0} → List (RankedStory P) → Option Text → Option P → List (RankedStory P)
apply_local_priority_update tasks issue_key none = tasks
apply_local_priority_update tasks issue_key (some patch) =
    let key = trimmed issue_key in if non_empty key then map (patched key patch) tasks else tasks
