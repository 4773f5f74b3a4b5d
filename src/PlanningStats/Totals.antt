-- ===== src/PlanningStats/Totals.antt =====
-- The totals of the statistics.
use jira_execution_planner.Base.{
  ◌≡◌, refl, ap, ◌∙◌, Bool, not, Option, none, some, List, [], ◌∷◌, Bool-cases, inl, inr,
}
use jira_execution_planner.Base.Lists.{filter}
use jira_execution_planner.Base.Text.{Text, text_beq, text_beq_iff}
use jira_execution_planner.Base.Dict.{Dict, lookup, insert, lookup-insert}
use jira_execution_planner.PlanningStats.{
  CapacityIssue, reduce_by, TeamRef, TeamPoints, ProjectPoints, sum_from, sum_planning_story_points,
  grow_team, build_selected_team_stats, or_no_points, grow_project,
  build_selected_team_project_stats, is_tech, classify_capacity_issue,
}

module _ {ℓ κ} {T : Type ℓ} {V : Type κ} (key : T → Text) (grow : T → Option V → V) where
  -- The entry after the tasks have changed it one by one
  abbrev pub grow_all : List T → Option V → Option V
  grow_all [] entry = entry
  grow_all (task ∷ tasks) entry = grow_all tasks (some (grow task entry))

  -- Only the tasks with the key change the entry under it.
  pub lookup-reduce_by :
      (k : Text) (tasks : List T) (acc : Dict V)
      → lookup k (reduce_by key grow tasks acc)
        ≡ grow_all (filter (λ t. text_beq (key t) k) tasks) (lookup k acc)
  unfolding reduce_by
  lookup-reduce_by k [] acc = refl
  lookup-reduce_by k (task ∷ tasks) acc =
      let v = grow task (lookup (key task) acc) in
      lookup-reduce_by k tasks (insert (key task) v acc)
      ∙ (elim (Bool-cases (text_beq (key task) k)) [
        | inl h ↦
            rw (lookup-insert (key task) k v acc, h)
              (ap
                (λ j.
                  grow_all (filter (λ t. text_beq (key t) k) tasks)
                    (some (grow task (lookup j acc))))
                ((text_beq_iff (key task) k).0 h))
        | inr h ↦ rw (lookup-insert (key task) k v acc, h) refl
      ])

module _ {N : Type 0} (zero_points : N) (plus : N → N → N) where
  grow_all-grow_team :
      (get_team_info : CapacityIssue N → TeamRef) (tasks : List (CapacityIssue N))
      (team : TeamPoints N)
      → grow_all
          (λ task. (get_team_info task).id)
          (grow_team zero_points plus get_team_info)
          tasks
          (some team)
        ≡ some (record team { story_points = sum_from zero_points plus team.story_points tasks })
  grow_all-grow_team get_team_info [] team = refl
  grow_all-grow_team get_team_info (task ∷ tasks) team =
      grow_all-grow_team get_team_info tasks
        (grow_team zero_points plus get_team_info task (some team))

  -- The entry of a team, from the tasks of the team
  abbrev pub team_total :
      (CapacityIssue N → TeamRef) → List (CapacityIssue N) → Option (TeamPoints N)
  team_total get_team_info [] = none
  team_total get_team_info (task ∷ tasks) = some (record {
    name = (get_team_info task).name;
    story_points = sum_planning_story_points zero_points plus (task ∷ tasks);
  })

  -- The statistics have an entry for exactly the teams of the tasks, with the name that the team's
  -- first task gives and the sum of the story points of the team's tasks, added in their order.
  pub lookup-build_selected_team_stats :
      (tasks : List (CapacityIssue N)) (get_team_info : CapacityIssue N → TeamRef) (id : Text)
      → lookup id (build_selected_team_stats zero_points plus tasks get_team_info)
        ≡ team_total get_team_info (filter (λ t. text_beq (get_team_info t).id id) tasks)
  unfolding build_selected_team_stats lookup sum_planning_story_points
  lookup-build_selected_team_stats tasks get_team_info id =
      lookup-reduce_by (λ t. (get_team_info t).id) (grow_team zero_points plus get_team_info) id
        tasks []
      ∙ (elim (filter (λ t. text_beq (get_team_info t).id id) tasks)
          as (λ ts.
            grow_all (λ t. (get_team_info t).id) (grow_team zero_points plus get_team_info) ts none
            ≡ team_total get_team_info ts) [
              | [] ↦ refl
              | task ∷ rest ↦ grow_all-grow_team get_team_info rest _
            ])

  grow_all-grow_project :
      (key : CapacityIssue N → Text) (in_tech : CapacityIssue N → Bool)
      (tasks : List (CapacityIssue N)) (team : ProjectPoints N)
      → grow_all key (grow_project zero_points plus in_tech) tasks (some team)
        ≡ some (record {
          product_points =
              sum_from zero_points plus team.product_points (filter (λ t. not (in_tech t)) tasks);
          tech_points = sum_from zero_points plus team.tech_points (filter in_tech tasks);
        })
  grow_all-grow_project key in_tech [] team = refl
  grow_all-grow_project key in_tech (task ∷ tasks) team = elim (Bool-cases (in_tech task)) [
    | inl h ↦ rw h (grow_all-grow_project key in_tech tasks _)
    | inr h ↦ rw h (grow_all-grow_project key in_tech tasks _)
  ]

  -- The entry of a team, from the tasks of the team
  abbrev pub project_total :
      (CapacityIssue N → Bool) → List (CapacityIssue N) → Option (ProjectPoints N)
  project_total in_tech [] = none
  project_total in_tech (task ∷ tasks) = some (record {
    product_points =
        sum_planning_story_points zero_points plus (filter (λ t. not (in_tech t)) (task ∷ tasks));
    tech_points = sum_planning_story_points zero_points plus (filter in_tech (task ∷ tasks));
  })

  -- The statistics have an entry for exactly the teams of the tasks. It holds the sum of the
  -- points of the team's tasks that are classified as Tech, and that of the team's other tasks,
  -- each added in the order of the tasks.
  pub lookup-build_selected_team_project_stats :
      (tasks : List (CapacityIssue N)) (get_team_info : CapacityIssue N → TeamRef)
      (tech_project_keys ad_hoc_epics : Option (List Text)) (id : Text)
      → lookup id (
          build_selected_team_project_stats zero_points plus tasks get_team_info tech_project_keys
            ad_hoc_epics)
        ≡ project_total
            (λ t. is_tech (classify_capacity_issue tech_project_keys ad_hoc_epics t).project_type)
            (filter (λ t. text_beq (get_team_info t).id id) tasks)
  unfolding build_selected_team_project_stats lookup sum_planning_story_points
  lookup-build_selected_team_project_stats tasks get_team_info tech ad_hoc id =
      let in_tech : CapacityIssue N → Bool =
        λ t. is_tech (classify_capacity_issue tech ad_hoc t).project_type in
      lookup-reduce_by (λ t. (get_team_info t).id) (grow_project zero_points plus in_tech) id tasks
        []
      ∙ (elim (filter (λ t. text_beq (get_team_info t).id id) tasks)
          as (λ ts.
            grow_all (λ t. (get_team_info t).id) (grow_project zero_points plus in_tech) ts none
            ≡ project_total in_tech ts) [
              | [] ↦ refl
              | task ∷ rest ↦
                  grow_all-grow_project (λ t. (get_team_info t).id) in_tech (task ∷ rest)
                    (or_no_points zero_points plus none)
            ])
