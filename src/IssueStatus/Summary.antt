-- ===== src/IssueStatus/Summary.antt =====
-- What is reported of a batch: kinds of issues, results and buckets.
-- frontend/src/eng/engStatusTransitionUtils.js, and `bucketCount` of
-- frontend/src/analytics/events.js for whole numbers.
use jira_execution_planner.Base.{
  ℕ, suc, Bool, true, false, ◌||◌, ◌&&◌, Option, none, some, List, [], ◌∷◌, leb, nat_beq,
  if◌then◌else◌,
}
use jira_execution_planner.Base.Lists.{length}
use jira_execution_planner.Base.Text.{Text, text, text_beq, trimmed, lower}
use jira_execution_planner.Base.Dict.{Dict, lookup}
use jira_execution_planner.Planning.Teams.{or_text}

-- `String(value || '').trim().toLowerCase()`
abbrev pub lower_name : Option Text → Text
lower_name value = lower (trimmed value)

pub data IssueClass : Type 0 where
  epic story subtask : IssueClass

unfoldable pub classify_issue_type_token : Option Text → IssueClass
classify_issue_type_token issue_type =
    let normalized = lower_name issue_type in
    if text_beq normalized (text "epic")
    then epic
    else if text_beq normalized (text "subtask") || text_beq normalized (text "sub-task")
    then subtask
    else story

pub record Kinds : Type 0 where
  pub has_epic : Bool
  pub has_story : Bool
  pub has_subtask : Bool

abbrev pub note_kind : IssueClass → Kinds → Kinds
note_kind epic kinds = record kinds { has_epic = true }
note_kind story kinds = record kinds { has_story = true }
note_kind subtask kinds = record kinds { has_subtask = true }

unfoldable pub kinds_of : List (Option Text) → Kinds → Kinds
kinds_of [] kinds = kinds
kinds_of (issue_type ∷ issue_types) kinds =
    kinds_of issue_types (note_kind (classify_issue_type_token issue_type) kinds)

abbrev pub no_kinds : Kinds
no_kinds = record { has_epic = false; has_story = false; has_subtask = false }

pub data TypeMix : Type 0 where
  mixed epics subtasks stories : TypeMix

-- More than one of the three
abbrev pub is_mixed : Kinds → Bool
is_mixed kinds =
    (kinds.has_epic && (kinds.has_story || kinds.has_subtask))
    || (kinds.has_story && kinds.has_subtask)

-- The types of the targets of a batch
unfoldable pub summarize_issue_type_mix : List (Option Text) → TypeMix
summarize_issue_type_mix issue_types =
    let kinds = kinds_of issue_types no_kinds in
    if is_mixed kinds
    then mixed
    else if kinds.has_epic
    then epics
    else if kinds.has_subtask
    then subtasks
    else stories

pub data Verdict : Type 0 where
  success partial failure : Verdict

pub record TransitionSummary : Type 0 where
  pub total : ℕ
  pub succeeded : ℕ
  pub failed : ℕ
  pub result : Verdict

-- `done` is the outcome beside `success` that counts: `already_in_status` or `already_in_priority`.
module _ (done : Text) where
  unfoldable pub is_success : Option Text → Bool
  is_success result =
      text_beq (lower_name result) (text "success") || text_beq (lower_name result) done

  -- The loop over the `result`s, with the two counters
  unfoldable pub count_results : List (Option Text) → ℕ × ℕ → ℕ × ℕ
  count_results [] counts = counts
  count_results (result ∷ results) (succeeded, failed) =
      count_results results
        (if is_success result then (suc succeeded, failed) else (succeeded, suc failed))

  unfoldable pub summarize_results : List (Option Text) → TransitionSummary
  summarize_results results =
      let counts = count_results results (0, 0) in
      record {
        total = length results;
        succeeded = counts.0;
        failed = counts.1;
        result =
            if nat_beq counts.0 0 then failure else if nat_beq counts.1 0 then success else partial;
      }

unfoldable pub summarize_transition_results : List (Option Text) → TransitionSummary
unfolding summarize_results
summarize_transition_results results = summarize_results (text "already_in_status") results

abbrev pub status_bucket_by_name : Dict Text
status_bucket_by_name =
    (text "to do", text "todo")
    ∷ (text "todo", text "todo")
    ∷ (text "open", text "todo")
    ∷ (text "reopened", text "todo")
    ∷ (text "backlog", text "todo")
    ∷ (text "selected for development", text "todo")
    ∷ (text "pending", text "todo")
    ∷ (text "accepted", text "accepted")
    ∷ (text "in progress", text "in_progress")
    ∷ (text "in development", text "in_progress")
    ∷ (text "in review", text "in_progress")
    ∷ (text "in testing", text "in_progress")
    ∷ (text "analysis", text "in_progress")
    ∷ (text "release", text "in_progress")
    ∷ (text "waiting for release", text "in_progress")
    ∷ (text "awaiting validation", text "in_progress")
    ∷ (text "done", text "done")
    ∷ (text "closed", text "done")
    ∷ (text "resolved", text "done")
    ∷ (text "released", text "done")
    ∷ (text "complete", text "done")
    ∷ (text "completed", text "done")
    ∷ (text "blocked", text "blocked")
    ∷ (text "external block", text "blocked")
    ∷ (text "on hold", text "blocked")
    ∷ (text "impediment", text "blocked")
    ∷ (text "waiting", text "blocked")
    ∷ (text "postponed", text "postponed")
    ∷ []

abbrev pub text_or : Text → Option Text → Text
text_or fallback none = fallback
text_or fallback (some t) = or_text t fallback

unfoldable pub build_status_bucket : Option Text → Text
build_status_bucket status_name =
    text_or (text "other") (lookup (lower_name status_name) status_bucket_by_name)

unfoldable pub bucket_count : ℕ → Text
bucket_count count =
    if nat_beq count 0
    then text "0"
    else if leb count 5
    then text "1_5"
    else if leb count 10
    then text "6_10"
    else if leb count 25
    then text "11_25"
    else if leb count 50
    then text "26_50"
    else if leb count 100
    then text "51_100"
    else text "over_100"
