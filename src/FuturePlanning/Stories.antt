-- ===== src/FuturePlanning/Stories.antt =====
-- frontend/src/futurePlanningNeedsStories.mjs: the epics, and their teams, that still need stories
-- for the sprint. Counts are whole numbers; one that is missing counts as 0.
use jira_execution_planner.Base.{
  ℕ, Bool, ◌&&◌, ◌||◌, not, Option, none, some, List, [], ◌∷◌, ltb, if◌then◌else◌,
}
use jira_execution_planner.Base.Lists.{any, all, non_empty}
use jira_execution_planner.Base.Text.{Text, text, text_beq}
use jira_execution_planner.Base.Dict.{Dict, lookup}
use jira_execution_planner.FuturePlanning.{PlannedTeam}

pub record StoryCounts : Type 0 where
  pub selected_actionable_stories : Option ℕ
  pub open_stories_outside_selected : Option ℕ
  pub total_stories : Option ℕ
  -- `selectedActionableByTeam`, where the backend sent it
  pub selected_actionable_by_team : Option (Dict ℕ)

pub data NeedReason : Type 0 where
  no_stories : NeedReason
  only_closed_stories : NeedReason
  stories_in_other_sprint : NeedReason
  team_missing_selected : NeedReason

unfoldable pub get_future_planning_needs_stories_reason_text : NeedReason → Text
get_future_planning_needs_stories_reason_text no_stories = text "No stories yet for this sprint."
get_future_planning_needs_stories_reason_text only_closed_stories =
    text "Only closed stories exist for this epic."
get_future_planning_needs_stories_reason_text stories_in_other_sprint =
    text "Open stories exist, but not in the selected sprint."
get_future_planning_needs_stories_reason_text team_missing_selected =
    text "This team has no story for the selected sprint."

-- `Number(count || 0)`
abbrev pub count_of : Option ℕ → ℕ
count_of none = 0
count_of (some n) = n

abbrev pub is_positive : Option ℕ → Bool
is_positive count = ltb 0 (count_of count)

-- `result` is an entry, `null` is none.
pub record NeedsEntry : Type 0 where
  pub reason : NeedReason
  pub team : PlannedTeam

-- The code takes `normalizeStatus` and `isTaskInSelectedSprint` as arguments; `status_name` reads
-- the name of a task's status.
unfoldable pub is_terminal_story :
    {A : Type 0} → (A → Option Text) → (Option Text → Text) → A → Bool
is_terminal_story status_name normalize_status task =
    let status = normalize_status (status_name task) in
    text_beq status (text "done")
    || text_beq status (text "killed")
    || text_beq status (text "incomplete")

module _ {A : Type 0} (status_name : A → Option Text) (normalize_status : Option Text → Text)
    (is_task_in_selected_sprint : A → Bool) where
  unfoldable pub is_open_in_selected_sprint : A → Bool
  is_open_in_selected_sprint task =
      not (is_terminal_story status_name normalize_status task) && is_task_in_selected_sprint task

  unfoldable pub classify_future_planning_needs_stories : StoryCounts → List A → Option NeedReason
  classify_future_planning_needs_stories epic stories =
      if is_positive epic.selected_actionable_stories
      then none
      else if is_positive epic.open_stories_outside_selected
      then some stories_in_other_sprint
      else if is_positive epic.total_stories && not (non_empty stories)
      then some only_closed_stories
      else if not (non_empty stories)
      then some no_stories
      else if all (is_terminal_story status_name normalize_status) stories
      then some only_closed_stories
      else if any is_open_in_selected_sprint stories
      then none
      else some stories_in_other_sprint

  -- The last argument is `selectedActionableByTeam`.
  abbrev pub classify_by_team : StoryCounts → Text → List A → Option (Dict ℕ) → Option NeedReason
  classify_by_team epic team_id stories none = classify_future_planning_needs_stories epic stories
  classify_by_team epic team_id stories (some by_team) =
      if is_positive (lookup team_id by_team)
      then none
      else if is_positive epic.selected_actionable_stories
      then some team_missing_selected
      else classify_future_planning_needs_stories epic stories

  unfoldable pub classify_future_planning_team_needs_stories :
      StoryCounts → Text → List A → Option NeedReason
  classify_future_planning_team_needs_stories epic team_id stories =
      classify_by_team epic team_id stories epic.selected_actionable_by_team

  unfoldable pub build_needs_stories_team_entries :
      StoryCounts → List (Option PlannedTeam) → List A → List NeedsEntry
  build_needs_stories_team_entries epic [] stories = []
  build_needs_stories_team_entries epic (none ∷ teams) stories =
      build_needs_stories_team_entries epic teams stories
  build_needs_stories_team_entries epic (some team ∷ teams) stories =
      let rest = build_needs_stories_team_entries epic teams stories in
      elim (classify_future_planning_team_needs_stories epic team.id stories) [
        | none ↦ rest
        | some reason ↦ record { reason = reason; team = team } ∷ rest
      ]
