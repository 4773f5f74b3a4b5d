-- ===== src/IssueStatus/Tests.antt =====
-- A batch that names one issue three times, and the summaries of some results.
use jira_execution_planner.Base.{◌≡◌, refl, Option, none, some, List, [], ◌∷◌, map}
use jira_execution_planner.Base.Lists.{find, Distinct, unique_from}
use jira_execution_planner.Base.Text.{
  Text, text, text_beq, text_equality, trim, trimmed, lower, upper, upper_key,
}
use jira_execution_planner.Base.Dict.{Dict, lookup, insert}
use jira_execution_planner.IssueStatus.{
  status_text, status_object, Issue, StatusTarget, StatusEpicGroup, bare_issue, epic_issue,
  issue_status_name, build_catch_up_status_targets, find_epic_group_by_key, present,
  resolve_epic_status_targets, find_subtask_item_by_key, resolve_subtask_status_targets,
  enter_targets, enter_lists, dedupe_status_targets_by_precedence, build_eng_status_targets,
  wanted_keys, resolve_subtask_parent_story_keys,
}
use jira_execution_planner.IssueStatus.Summary.{
  classify_issue_type_token, kinds_of, summarize_issue_type_mix, mixed, epics, subtasks, stories,
  partial, failure, is_success, count_results, summarize_results, summarize_transition_results,
  build_status_bucket, bucket_count,
}
use jira_execution_planner.IssueStatus.Targets.{
  key_of, or_else, last_with, build_eng_status_targets-IsMap,
}

program : Unit {0}
unfolding text_beq trim trimmed lower upper upper_key lookup insert unique_from epic_issue
    issue_status_name build_catch_up_status_targets find_epic_group_by_key
    resolve_epic_status_targets find_subtask_item_by_key resolve_subtask_status_targets
    enter_targets enter_lists dedupe_status_targets_by_precedence build_eng_status_targets
    wanted_keys resolve_subtask_parent_story_keys classify_issue_type_token kinds_of
    summarize_issue_type_mix is_success count_results summarize_results summarize_transition_results
    build_status_bucket bucket_count
program = tt

abbrev story : Issue
story = record (bare_issue (text " a-1")) {
  fields = some (record {
    status = status_object (some (text "To Do"));
    issue_type_name = none;
    summary = some (text "S");
  });
}

abbrev group : StatusEpicGroup
group = record {
  key = some (text "A-1");
  epic = some (record { status = status_text (text "Done"); summary = none });
  parent_summary = some (text "E");
}

abbrev loaded : Dict (Option (List Issue))
loaded = (text "A-1", none) ∷ (text "A-2", some (bare_issue (text "a-9") ∷ [])) ∷ []

abbrev batch : List StatusTarget
batch =
    build_eng_status_targets (story ∷ []) (text "a-1" ∷ []) (text "A-9" ∷ text "A-1" ∷ [])
      (group ∷ []) loaded

batch_lem :
    batch
    ≡ record { key = text "a-9"; issue_type = text "Subtask"; current_status = []; summary = [] }
      ∷ record {
        key = text "A-1";
        issue_type = text "Epic";
        current_status = text "Done";
        summary = text "E";
      }
      ∷ []
unfolding program
batch_lem = refl

parents-a9 : resolve_subtask_parent_story_keys (text " a-9" ∷ [] ∷ []) loaded ≡ text "A-2" ∷ []
unfolding program
parents-a9 = refl

mix-types :
    map summarize_issue_type_mix (
      (some (text "Epic") ∷ none ∷ [])
      ∷ (some (text "Sub-task") ∷ some (text "subtask") ∷ [])
      ∷ []
      ∷ (some (text "EPIC ") ∷ [])
      ∷ [])
    ≡ mixed ∷ subtasks ∷ stories ∷ epics ∷ []
unfolding program
mix-types = refl

abbrev results : List (Option Text)
results = some (text " Success") ∷ none ∷ some (text "already_in_status") ∷ []

summary-results :
    summarize_transition_results results
    ≡ record { total = 3; succeeded = 2; failed = 1; result = partial }
unfolding program
summary-results = refl

summary-nil : (summarize_transition_results []).result ≡ failure
unfolding program
summary-nil = refl

bucket-review : build_status_bucket (some (text " In Review")) ≡ text "in_progress"
unfolding program
bucket-review = refl

bucket-counts :
    map bucket_count (0 ∷ 5 ∷ 6 ∷ 101 ∷ [])
    ≡ text "0" ∷ text "1_5" ∷ text "6_10" ∷ text "over_100" ∷ []
unfolding program
bucket-counts = refl

build_eng_status_targets-IsMap_example :
    Distinct (map key_of batch)
    × (find (λ (t : StatusTarget). text_beq (key_of t) (text "A-1")) batch
        ≡ or_else
            (last_with (text "A-1") (resolve_epic_status_targets (text "a-1" ∷ []) (group ∷ [])))
            (or_else
              (last_with
                (text "A-1")
                (present (map (λ t. build_catch_up_status_targets t (text "Story")) (story ∷ []))))
              (last_with
                (text "A-1")
                (resolve_subtask_status_targets (text "A-9" ∷ text "A-1" ∷ []) loaded))))
build_eng_status_targets-IsMap_example =
    build_eng_status_targets-IsMap (story ∷ []) (text "a-1" ∷ []) (text "A-9" ∷ text "A-1" ∷ [])
      (group ∷ []) loaded (text "A-1")
