-- ===== src/FuturePlanning/Tests.antt =====
-- An epic of two teams under a selection, and the reasons for its missing stories.
use jira_execution_planner.Base.{◌≡◌, refl, Bool, true, false, Option, none, some, List, [], ◌∷◌}
use jira_execution_planner.Base.Lists.{All}
use jira_execution_planner.Base.Text.{Text, text, text_beq, trim, trimmed, lower, or_empty}
use jira_execution_planner.Base.Dict.{Dict, lookup}
use jira_execution_planner.Planning.State.Normal.{IsKey}
use jira_execution_planner.Planning.Teams.{or_text}
use jira_execution_planner.FuturePlanning.{
  PlannedEpic, PlannedTeam, object_names, map_names, no_names, normalize_label, get_epic_labels,
  get_single_selected_team_id, get_raw_epic_team_info, matched_ids, get_matched_planning_team_ids,
  lookup_team_name, selected_team, matched_team, get_future_planning_epic_team_infos,
  get_future_planning_epic_team_info, get_future_planning_expected_team_label,
  epic_matches_future_planning_team_selection,
}
use jira_execution_planner.FuturePlanning.Stories.{
  StoryCounts, only_closed_stories, stories_in_other_sprint, team_missing_selected,
  is_terminal_story, is_open_in_selected_sprint, classify_future_planning_needs_stories,
  classify_future_planning_team_needs_stories, build_needs_stories_team_entries,
}
use jira_execution_planner.FuturePlanning.Teams.{IsSelected, infos-IsSelected}

program : Unit {0}
unfolding text_beq trim trimmed lower lookup or_text normalize_label get_epic_labels
    get_single_selected_team_id get_raw_epic_team_info matched_ids get_matched_planning_team_ids
    lookup_team_name selected_team matched_team get_future_planning_epic_team_infos
    get_future_planning_epic_team_info get_future_planning_expected_team_label
    epic_matches_future_planning_team_selection is_terminal_story is_open_in_selected_sprint
    classify_future_planning_needs_stories classify_future_planning_team_needs_stories
    build_needs_stories_team_entries
program = tt

abbrev epic : PlannedEpic
epic = record {
  team_name = none;
  team_id = none;
  team = none;
  labels = some (text " Alpha-Q1") ∷ none ∷ some (text "beta-q1") ∷ [];
}

abbrev labels : Dict (Option Text)
labels =
    (text "1", some (text "alpha-q1")) ∷ (text "2", none) ∷ (text "3", some (text "Beta-Q1 ")) ∷ []

matched-epic : get_matched_planning_team_ids epic labels ≡ text "1" ∷ text "3" ∷ []
unfolding program
matched-epic = refl

info-single :
    get_future_planning_epic_team_info
      (text "Mine")
      no_names
      none
      epic
      (some (text "2" ∷ []))
      labels
    ≡ record { id = text "2"; name = text "Mine" }
unfolding program
info-single = refl

info-raw :
    get_future_planning_epic_team_info [] no_names none epic
      (some (text "2" ∷ text "4" ∷ []))
      labels
    ≡ record { id = text "Unknown Team"; name = text "Unknown Team" }
unfolding program
info-raw = refl

infos-map :
    get_future_planning_epic_team_infos []
      (map_names ((text "1", some (text " A ")) ∷ []))
      none
      epic
      none
      labels
    ≡ record { id = text "1"; name = text "A" } ∷ record { id = text "3"; name = text "3" } ∷ []
unfolding program
infos-map = refl

label-matched : get_future_planning_expected_team_label epic none labels ≡ text "alpha-q1"
unfolding program
label-matched = refl

abbrev chosen : List Text
chosen = text "2" ∷ text "3" ∷ []

chosen-IsKey : All IsKey chosen
unfolding program
chosen-IsKey = (
  record { filled = refl; trimmed_key = refl },
  (record { filled = refl; trimmed_key = refl }, tt),
)

matches-chosen : epic_matches_future_planning_team_selection epic false (some chosen) labels ≡ true
unfolding program
matches-chosen = refl

infos-IsSelected_example :
    All
      (IsSelected chosen)
      (get_future_planning_epic_team_infos [] (object_names []) none epic (some chosen) labels)
infos-IsSelected_example =
    infos-IsSelected [] (object_names []) none epic chosen labels chosen-IsKey matches-chosen

-- A task by its status and whether it is in the sprint
abbrev status_of : Text × Bool → Option Text
status_of task = some task.0

abbrev in_sprint : Text × Bool → Bool
in_sprint task = task.1

abbrev normalize : Option Text → Text
normalize status = lower (or_empty status)

abbrev counts : StoryCounts
counts = record {
  selected_actionable_stories = some 2;
  open_stories_outside_selected = none;
  total_stories = some 3;
  selected_actionable_by_team = some ((text "1", 2) ∷ []);
}

abbrev teams : List (Option PlannedTeam)
teams =
    some (record { id = text "1"; name = text "A" })
    ∷ none
    ∷ some (record { id = text "3"; name = text "B" })
    ∷ []

abbrev stories : List (Text × Bool)
stories = (text "Done", true) ∷ (text "To Do", true) ∷ []

entries-missing :
    build_needs_stories_team_entries status_of normalize in_sprint counts teams stories
    ≡ record { reason = team_missing_selected; team = record { id = text "3"; name = text "B" } }
      ∷ []
unfolding program
entries-missing = refl

need-closed :
    classify_future_planning_needs_stories status_of normalize in_sprint
      (record counts { selected_actionable_stories = none })
      ((text "KILLED", true) ∷ [])
    ≡ some only_closed_stories
unfolding program
need-closed = refl

need-other :
    classify_future_planning_needs_stories status_of normalize in_sprint
      (record counts { selected_actionable_stories = none })
      ((text "To Do", false) ∷ [])
    ≡ some stories_in_other_sprint
unfolding program
need-other = refl
