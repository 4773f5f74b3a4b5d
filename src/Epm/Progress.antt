-- ===== src/Epm/Progress.antt =====
-- The progress of a project: the story points of its tree by status.
pub mod Totals
use jira_execution_planner.Base.{
  ◌≡◌, ℕ, zero, suc, ◌+◌, ◌-◌, ◌*◌, Bool, true, false, ◌&&◌, not, Option, none, some, List, [], ◌∷◌,
  ◌++◌, arith, leb, if◌then◌else◌,
}
use jira_execution_planner.Base.Lists.{includes, filter}
use jira_execution_planner.Base.Text.{Text, text, text_beq, text_equality}
use jira_execution_planner.Epm.{
  Double, Issue, EpicNode, InitiativeNode, RollupTree, metadata_only, empty_rollup, tree,
}
use jira_execution_planner.Epm.Status.{
  normalize_epm_settings_status, completed_progress_statuses, in_progress_statuses,
}
use jira_execution_planner.Epm.Tree.{gather}

-- The arithmetic of JavaScript numbers that the progress uses.
pub record Arithmetic : Type 0 where
  pub zero : Double
  -- `a + b`, `a - b`
  pub add : Double → Double → Double
  pub subtract : Double → Double → Double
  -- `a > 0`; the numbers compared are not NaN
  pub is_positive : Double → Bool
  -- `Math.max(0, a)`
  pub max_zero : Double → Double
  -- `(a / b) * 100`
  pub percent_of : Double → Double → Double

pub record Progress : Type 0 where
  pub completed : Double
  pub incomplete : Double
  pub in_progress : Double
  pub done : Double
  pub killed : Double
  pub remaining : Double
  pub waiting : Double
  pub total : Double
  pub percent : Double

abbrev epic_stories : EpicNode → List Issue
epic_stories epic = epic.stories

abbrev initiative_stories : InitiativeNode → List Issue
initiative_stories initiative = gather epic_stories initiative.epics ++ initiative.loose_stories

unfoldable pub collect_epm_project_stories : RollupTree → List Issue
collect_epm_project_stories metadata_only = []
collect_epm_project_stories empty_rollup = []
collect_epm_project_stories (tree cut queries initiatives root_epics orphans) =
    gather initiative_stories initiatives ++ (gather epic_stories root_epics ++ orphans)

abbrev pub status_of : Issue → Text
status_of story = normalize_epm_settings_status story.status

module _ (a : Arithmetic) where
  abbrev pub points_or_0 : Option Double → Double
  points_or_0 none = a.zero
  points_or_0 (some n) = if a.is_positive n then n else a.zero

  unfoldable pub get_epm_story_points : Issue → Double
  get_epm_story_points issue = points_or_0 issue.story_points

  -- The body of the loop.
  unfoldable pub add_story : Progress → Issue → Progress
  add_story p story =
      let n = get_epm_story_points story in
      let status = status_of story in
      if not (a.is_positive n)
      then p
      else if text_beq status (text "killed")
      then record p { killed = a.add p.killed n }
      else if includes status completed_progress_statuses
      then (if text_beq status (text "done")
          then record p {
            total = a.add p.total n;
            completed = a.add p.completed n;
            done = a.add p.done n;
          }
          else record p {
            total = a.add p.total n;
            completed = a.add p.completed n;
            incomplete = a.add p.incomplete n;
          })
      else if includes status in_progress_statuses
      then record p { total = a.add p.total n; in_progress = a.add p.in_progress n }
      else record p { total = a.add p.total n; waiting = a.add p.waiting n }

  unfoldable pub add_stories : Progress → List Issue → Progress
  unfolding add_story
  add_stories p [] = p
  add_stories p (story ∷ stories) = add_stories (add_story p story) stories

  abbrev pub no_progress : Progress
  no_progress = record {
    completed = a.zero;
    incomplete = a.zero;
    in_progress = a.zero;
    done = a.zero;
    killed = a.zero;
    remaining = a.zero;
    waiting = a.zero;
    total = a.zero;
    percent = a.zero;
  }

  -- The lines behind the loop.
  unfoldable pub finish : Progress → Option Progress
  finish p =
      if not (a.is_positive p.total)
      then none
      else some (record p {
        remaining = a.max_zero (a.subtract p.total p.completed);
        waiting = a.max_zero (a.subtract (a.subtract p.total p.completed) p.in_progress);
        percent = a.percent_of p.completed p.total;
      })

  unfoldable pub build_epm_project_progress : RollupTree → Option Progress
  unfolding collect_epm_project_stories add_stories finish
  build_epm_project_progress rollup =
      finish (add_stories no_progress (collect_epm_project_stories rollup))
