-- ===== src/Epm/Samples.antt =====
-- Sample issues and a sample payload for the tests of the EPM functions.
use jira_execution_planner.Base.{ℕ, false, Option, none, some, [], ◌∷◌}
use jira_execution_planner.Base.Text.{Text, text, text_equality}
use jira_execution_planner.Epm.{Issue, array, object, neither, Payload}

abbrev pub issue : Text → Text → Text → Option ℕ → Issue
issue key status priority points = record {
  id = none;
  key = some key;
  summary = some (text "Work");
  status = some status;
  priority = some priority;
  issue_type = some (text "Story");
  assignee = none;
  updated = none;
  story_points = points;
  team_name = none;
  team_id = none;
  parent_key = none;
  parent_summary = none;
}

abbrev pub done_story : Issue
done_story = issue (text "S-1") (text "Done") (text "High") (some 3)

abbrev pub running_story : Issue
running_story = issue (text " S-2 ") (text "In-Progress") (text "Low") (some 5)

abbrev pub low_epic : Issue
low_epic = issue (text "E-1") (text "In Progress") (text "Low") none

abbrev pub high_epic : Issue
high_epic = issue (text "E-2") (text "To Do") (text "Critical") none

abbrev pub goal : Issue
goal = issue (text "I-1") (text "To Do") (text "High") none

-- `S-1` stands under the initiative's epic and among the orphans.
abbrev pub payload : Payload
payload = record {
  metadata_only = false;
  empty_rollup = false;
  truncated = false;
  truncated_queries = none;
  initiatives = array (
      record {
        issue = some goal;
        epics =
            array (
              record { issue = some low_epic; stories = array (some done_story ∷ none ∷ []) } ∷ []);
        loose_stories = neither;
      }
      ∷ []);
  root_epics = object ((text "x", record { issue = some high_epic; stories = neither }) ∷ []);
  orphan_stories = array (some done_story ∷ some running_story ∷ []);
}
