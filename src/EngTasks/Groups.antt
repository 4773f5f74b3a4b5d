-- ===== src/EngTasks/Groups.antt =====
-- Grouping by team, and the filters of a scope.
use jira_execution_planner.Base.{
  ◌≡◌, refl, ap, sym, ◌∙◌, none, List, [], ◌∷◌, ◌++◌, arith, if◌then◌else◌, append_assoc,
  append-nil, Bool-cases, inl, inr,
}
use jira_execution_planner.Base.Lists.{filter, includes, Distinct, filter-append}
use jira_execution_planner.Base.Text.{Text, text_beq, text_beq_iff, text_equality}
use jira_execution_planner.Base.Dict.{Dict, lookup, insert, keys, lookup-insert, insert-Distinct}
use jira_execution_planner.EngTasks.{
  Task, get_task_team_info, items_of, group_into, group_tasks_by_team, task_epic_keys,
  filter_epics_by_task_epic_keys,
}

abbrev pub of_team_name : Text → List Task → List Task
of_team_name name tasks = filter (λ t. text_beq (get_task_team_info t).name name) tasks

abbrev with_task : Task → Dict (List Task) → Dict (List Task)
with_task t groups =
    insert (get_task_team_info t).name
      (items_of (lookup (get_task_team_info t).name groups) ++ t ∷ []) groups

items-with_task :
    (name : Text) (t : Task) (groups : Dict (List Task))
    → items_of (lookup name (with_task t groups))
      ≡ items_of (lookup name groups) ++ of_team_name name (t ∷ [])
items-with_task name t groups = elim (Bool-cases (text_beq (get_task_team_info t).name name)) [
  | inl ours ↦ rw (lookup-insert, ours, (text_beq_iff (get_task_team_info t).name name).0 ours) refl
  | inr other ↦ rw (lookup-insert, other, append-nil)
]

items-group_into :
    (name : Text) (tasks : List Task) (groups : Dict (List Task))
    → items_of (lookup name (group_into groups tasks))
      ≡ items_of (lookup name groups) ++ of_team_name name tasks
unfolding group_into
items-group_into name [] groups = sym (append-nil (items_of (lookup name groups)))
items-group_into name (t ∷ tasks) groups =
    items-group_into name tasks (with_task t groups)
    ∙ ap (λ l. l ++ of_team_name name tasks) (items-with_task name t groups)
    ∙ append_assoc (items_of (lookup name groups)) (of_team_name name (t ∷ []))
        (of_team_name name tasks)
    ∙ ap (λ l. items_of (lookup name groups) ++ l)
        (sym (filter-append (λ u. text_beq (get_task_team_info u).name name) (t ∷ []) tasks))

group_into-Distinct :
    (tasks : List Task) (groups : Dict (List Task))
    → Distinct (keys groups)
    → Distinct (keys (group_into groups tasks))
unfolding group_into
group_into-Distinct [] groups d = d
group_into-Distinct (t ∷ tasks) groups d = group_into-Distinct tasks (with_task t groups) (
    insert-Distinct (get_task_team_info t).name
      (items_of (lookup (get_task_team_info t).name groups) ++ t ∷ []) groups d)

-- Each team name stands once, with exactly the tasks of that name, in their order.
pub group_tasks_by_team_lem :
    (tasks : List Task)
    → Distinct (keys (group_tasks_by_team tasks))
      × ((name : Text)
          → items_of (lookup name (group_tasks_by_team tasks)) ≡ of_team_name name tasks)
unfolding group_tasks_by_team keys lookup
group_tasks_by_team_lem tasks =
    (group_into-Distinct tasks [] tt, λ name. items-group_into name tasks [])

-- An epic is kept exactly when a task names its key, and is itself unchanged.
pub lookup-filter_epics {ℓ} :
    {E : Type ℓ} (key : Text) (epics : Dict E) (tasks : List Task)
    → lookup key (filter_epics_by_task_epic_keys epics tasks)
      ≡ (if includes key (task_epic_keys tasks) then lookup key epics else none)
unfolding lookup filter_epics_by_task_epic_keys
lookup-filter_epics key [] tasks = ground arith
lookup-filter_epics key ((k, e) ∷ epics) tasks =
    ground (arith, lookup-filter_epics key epics tasks, text_beq_iff k key)
