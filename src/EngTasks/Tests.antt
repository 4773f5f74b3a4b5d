-- ===== src/EngTasks/Tests.antt =====
-- Task and epic orders on small inputs.
use jira_execution_planner.Base.{
  ◌≡◌, refl, true, Option, none, some, List, [], ◌∷◌, map, if◌then◌else◌,
}
use jira_execution_planner.Base.Lists.{includes}
use jira_execution_planner.Base.Text.{Text, text, text_equality, text_beq, trim, trimmed, lower}
use jira_execution_planner.Base.Dict.{lookup, insert, keys}
use jira_execution_planner.Base.Sort.{sort_by, SortsTo}
use jira_execution_planner.EngTasks.{
  Task, Epic, EpicGroup, get_task_team_info, get_epic_team_info, group_tasks_by_team, task_rank,
  sort_tasks_by_priority, priority_order, task_epic_keys, filter_epics_by_task_epic_keys,
  filter_epics_in_scope_for_team_set, epic_matches_active_group_label,
}
use jira_execution_planner.EngTasks.Groups.{lookup-filter_epics}
use jira_execution_planner.EngTasks.Order.{
  status, track_flexible, normalize_eng_epic_sort, default_status_phase_ranks,
  get_epic_effective_priority, improve, best_priority, get_status_phase_rank,
  get_project_track_rank, epic_status_name, epic_track, first_key, compare_epic_groups,
  sort_epic_groups,
}
use jira_execution_planner.EngTasks.Order.Sorted.{
  stands_before, task_le, sort_epic_groups-SortsTo, sort_tasks-SortsTo, BlockersLast,
  sort_tasks-BlockersLast,
}

program : Unit {0}
unfolding get_task_team_info get_epic_team_info group_tasks_by_team task_rank sort_tasks_by_priority
    task_epic_keys filter_epics_by_task_epic_keys filter_epics_in_scope_for_team_set
    epic_matches_active_group_label normalize_eng_epic_sort get_epic_effective_priority improve
    best_priority get_status_phase_rank get_project_track_rank epic_status_name epic_track first_key
    compare_epic_groups sort_epic_groups sort_by text_beq trim trimmed lower lookup insert keys
program = tt

abbrev task : Option Text → Option Text → Task
task team priority = record {
  team = none;
  team_id = none;
  team_name = team;
  priority = priority;
  epic_key = some (text "E-1");
}

abbrev tasks : List Task
tasks =
    task (some (text "One")) (some (text "Blocker"))
    ∷ task none (some (text "Major"))
    ∷ task (some (text "One")) (some (text "High"))
    ∷ []

blocker_behind_major :
    map (λ t. t.priority) (sort_tasks_by_priority priority_order tasks)
    ≡ some (text "High") ∷ some (text "Major") ∷ some (text "Blocker") ∷ []
unfolding program
blocker_behind_major = refl

effective_blocker :
    (get_epic_effective_priority priority_order (record { epic = none; tasks = tasks })).name
    ≡ some (text "Blocker")
unfolding program
effective_blocker = refl

team_names : keys (group_tasks_by_team tasks) ≡ text "One" ∷ text "Unknown Team" ∷ []
unfolding program
team_names = refl

abbrev epic : Text → Epic
epic s = record {
  team = none;
  team_id = none;
  team_name = none;
  labels = some (text "Alpha ") ∷ [];
  status = some s;
  project_track = some (text "Flexible");
}

abbrev groups : List EpicGroup
groups =
    record { epic = some (epic (text "Done")); tasks = tasks }
    ∷ record { epic = some (epic (text " in progress")); tasks = [] }
    ∷ []

phases :
    map
      (λ g. get_status_phase_rank (epic_status_name g.epic) default_status_phase_ranks)
      (sort_epic_groups status priority_order default_status_phase_ranks groups)
    ≡ 4 ∷ 5 ∷ []
unfolding program
phases = refl

labelled :
    epic_matches_active_group_label (epic (text "Done")) (none ∷ some (text "ALPHA") ∷ []) ≡ true
unfolding program
labelled = refl

sort_epic_groups_example :
    SortsTo
      (stands_before track_flexible priority_order default_status_phase_ranks)
      groups
      (sort_epic_groups track_flexible priority_order default_status_phase_ranks groups)
sort_epic_groups_example =
    sort_epic_groups-SortsTo track_flexible priority_order default_status_phase_ranks groups

sort_tasks_example :
    SortsTo (task_le priority_order) tasks (sort_tasks_by_priority priority_order tasks)
sort_tasks_example = sort_tasks-SortsTo priority_order tasks

blockers_example : BlockersLast (sort_tasks_by_priority priority_order tasks)
blockers_example = sort_tasks-BlockersLast tasks

lookup-filter_epics_example :
    lookup
      (text "E-1")
      (filter_epics_by_task_epic_keys ((text "E-1", tt) ∷ (text "E-2", tt) ∷ []) tasks)
    ≡ (if includes (text "E-1") (task_epic_keys tasks)
        then lookup {V = Unit {0}} (text "E-1") ((text "E-1", tt) ∷ (text "E-2", tt) ∷ [])
        else none)
lookup-filter_epics_example =
    lookup-filter_epics {E = Unit {0}} (text "E-1") ((text "E-1", tt) ∷ (text "E-2", tt) ∷ []) tasks
