-- ===== src/FuturePlanning/Reasons.antt =====
-- Which teams of an epic are reported to need stories, and for which reason.
use jira_execution_planner.Base.{
  ℕ, ◌≡◌, Bool, true, false, ◌&&◌, ◌||◌, not, Option, none, some, List, [], ◌∷◌,
}
use jira_execution_planner.Base.Lists.{any, all, non_empty}
use jira_execution_planner.Base.Text.{Text}
use jira_execution_planner.Base.Dict.{Dict, lookup}
use jira_execution_planner.FuturePlanning.{PlannedTeam}
use jira_execution_planner.FuturePlanning.Stories.{
  StoryCounts, NeedReason, no_stories, only_closed_stories, stories_in_other_sprint,
  team_missing_selected, is_positive, is_terminal_story, is_open_in_selected_sprint,
}

-- `teamInfos` without the entries that are not there
abbrev pub present : List (Option PlannedTeam) → List PlannedTeam
present [] = []
present (none ∷ teams) = present teams
present (some team ∷ teams) = team ∷ present teams

module _ {A : Type 0} (status_name : A → Option Text) (normalize_status : Option Text → Text)
    (is_in_sprint : A → Bool) where
  -- Open stories are known outside the sprint, or no open story is known within it.
  abbrev lacks_stories : StoryCounts → List A → Bool
  lacks_stories epic stories =
      is_positive epic.open_stories_outside_selected
      || not (any (is_open_in_selected_sprint status_name normalize_status is_in_sprint) stories)

  -- The team has no story of its own in the sprint, and the epic does not make up for it.
  abbrev owes_by : StoryCounts → List A → Text → Option (Dict ℕ) → Bool
  owes_by epic stories team_id none =
      not (is_positive epic.selected_actionable_stories) && lacks_stories epic stories
  owes_by epic stories team_id (some by_team) =
      not (is_positive (lookup team_id by_team))
      && (is_positive epic.selected_actionable_stories || lacks_stories epic stories)

  abbrev pub owes : StoryCounts → List A → Text → Bool
  owes epic stories team_id = owes_by epic stories team_id epic.selected_actionable_by_team

  -- What the reason says is so.
  abbrev pub IsJustified : StoryCounts → List A → NeedReason → Type 0
  IsJustified epic stories no_stories =
      (non_empty stories ≡ false) × (is_positive epic.total_stories ≡ false)
  IsJustified epic stories only_closed_stories =
      (all (is_terminal_story status_name normalize_status) stories ≡ true)
      × ((non_empty stories || is_positive epic.total_stories) ≡ true)
  IsJustified epic stories stories_in_other_sprint =
      (is_positive epic.open_stories_outside_selected
        || (not (all (is_terminal_story status_name normalize_status) stories)
            && not (
                any (is_open_in_selected_sprint status_name normalize_status is_in_sprint)
                  stories)))
      ≡ true
  IsJustified epic stories team_missing_selected =
      is_positive epic.selected_actionable_stories ≡ true

  -- The classification agrees with the description.
  abbrev Agrees : StoryCounts → List A → Bool → Option NeedReason → Type 0
  Agrees epic stories needs none = needs ≡ false
  Agrees epic stories needs (some reason) = (needs ≡ true) × IsJustified epic stories reason
