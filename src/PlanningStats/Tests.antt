-- ===== src/PlanningStats/Tests.antt =====
-- Four tasks of two teams, with whole story points.
use jira_execution_planner.Base.{ℕ, ◌+◌, ◌≡◌, refl, Option, none, some, List, [], ◌∷◌}
use jira_execution_planner.Base.Lists.{filter, length}
use jira_execution_planner.Base.Text.{Text, text, text_beq, trim, trimmed, upper, upper_key}
use jira_execution_planner.Base.Dict.{lookup, insert}
use jira_execution_planner.PlanningStats.{
  CapacityIssue, TeamRef, before_dash, capacity_epic_key, capacity_project_key,
  classify_capacity_issue, build_selected_planning_tasks_list, reduce_by, planning_story_points,
  sum_planning_story_points, build_selected_team_stats, build_selected_project_stats,
  build_selected_team_project_stats, build_excluded_project_stats, is_tech, product,
  ad_hoc_capacity, ad_hoc,
}
use jira_execution_planner.PlanningStats.Totals.{
  project_total, lookup-build_selected_team_project_stats,
}

program : Unit {0}
unfolding text_beq trim trimmed upper upper_key lookup insert before_dash capacity_epic_key
    capacity_project_key classify_capacity_issue build_selected_planning_tasks_list reduce_by
    planning_story_points sum_planning_story_points build_selected_team_stats
    build_selected_project_stats build_selected_team_project_stats build_excluded_project_stats
program = tt

abbrev issue : Text → Text → Option ℕ → CapacityIssue ℕ
issue key epic points = record {
  key = some key;
  own_project_key = none;
  epic_key = some epic;
  parent_key = none;
  project_key = none;
  points = points;
}

abbrev tasks : List (CapacityIssue ℕ)
tasks =
    issue (text "TECH-1") (text "E-1") (some 3)
    ∷ issue (text "SHOP-1") (text "E-1") (some 5)
    ∷ issue (text "TECH-2") (text "E-2") (some 2)
    ∷ issue (text "SHOP-2") (text "E-3") none
    ∷ []

-- The team is that of the project, except for the last task.
abbrev team_of : CapacityIssue ℕ → TeamRef
team_of t = elim t.points [
  | none ↦ record { id = text "2"; name = text "B" }
  | some p ↦ record { id = text "1"; name = text "A" }
]

abbrev tech_keys : Option (List Text)
tech_keys = some (text "TECH" ∷ [])

abbrev ad_hoc_keys : Option (List Text)
ad_hoc_keys = some (text "E-2" ∷ [])

class-ad_hoc :
    classify_capacity_issue tech_keys ad_hoc_keys (issue (text "TECH-2") (text " e-2") none)
    ≡ record {
      project_type = product;
      capacity_type = ad_hoc_capacity;
      product_subtype = some ad_hoc;
    }
unfolding program
class-ad_hoc = refl

stats-projects :
    build_selected_project_stats 0 (λ a b. a + b) tasks tech_keys ad_hoc_keys
    ≡ (text "TECH", 3) ∷ (text "PRODUCT", 7) ∷ []
unfolding program
stats-projects = refl

stats-excluded :
    build_excluded_project_stats 0
      (λ a b. a + b)
      tasks
      (text "E-2" ∷ [])
      (text "TECH" ∷ [])
      (λ k. k)
    ≡ (text "TECH", 2) ∷ []
unfolding program
stats-excluded = refl

selected-rest : length (build_selected_planning_tasks_list tasks (text "E-1" ∷ []) (λ k. k)) ≡ 2
unfolding program
selected-rest = refl

stats-teams :
    lookup
      (text "1")
      (build_selected_team_project_stats 0 (λ a b. a + b) tasks team_of tech_keys none)
    ≡ some (record { product_points = 5; tech_points = 5 })
unfolding program
stats-teams = refl

lookup-build_selected_team_project_stats_example :
    lookup
      (text "1")
      (build_selected_team_project_stats 0 (λ a b. a + b) tasks team_of tech_keys ad_hoc_keys)
    ≡ project_total 0
        (λ a b. a + b)
        (λ t. is_tech (classify_capacity_issue tech_keys ad_hoc_keys t).project_type)
        (filter (λ t. text_beq (team_of t).id (text "1")) tasks)
lookup-build_selected_team_project_stats_example =
    lookup-build_selected_team_project_stats 0 (λ a b. a + b) tasks team_of tech_keys ad_hoc_keys
      (text "1")
