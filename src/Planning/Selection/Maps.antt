-- ===== src/Planning/Selection/Maps.antt =====
-- Which tasks each action leaves selected.
use jira_execution_planner.Base.{
  ◌≡◌, refl, Bool, true, false, ◌&&◌, ◌||◌, not, Option, List, [], ◌∷◌, arith, if◌then◌else◌,
}
use jira_execution_planner.Base.Lists.{filter, any, non_empty}
use jira_execution_planner.Base.Text.{Text, text_beq, text_beq_iff, text_equality}
use jira_execution_planner.Base.Dict.{Dict, lookup, insert, remove, lookup-insert, lookup-remove}
use jira_execution_planner.Planning.Selection.{
  PlanningTask, is_selected, toggle_task_selection_map, add_visible,
  select_all_visible_planning_tasks_map, is_allowed, add_allowed,
  select_planning_tasks_by_status_map, include_planning_tasks_by_status_map, set_each,
  all_selected_of, toggle_include_by_status_map,
}

pub is_selected-insert :
    (j k : Text) (m : Dict Bool)
    → is_selected j (insert k true m) ≡ (text_beq k j || is_selected j m)
unfolding is_selected
is_selected-insert j k m = ground (arith, lookup-insert k j true m)

pub is_selected-remove :
    (j k : Text) (m : Dict Bool)
    → is_selected j (remove k m) ≡ (not (text_beq k j) && is_selected j m)
unfolding is_selected
is_selected-remove j k m = ground (arith, lookup-remove k j m)

-- A toggle flips one task and leaves every other as it was.
pub is_selected-toggle :
    (j k : Text) (m : Dict Bool)
    → is_selected j (toggle_task_selection_map m k)
      ≡ (if text_beq k j then not (is_selected k m) else is_selected j m)
unfolding toggle_task_selection_map
is_selected-toggle j k m =
    ground (arith, is_selected-insert j k m, is_selected-remove j k m, text_beq_iff k j)

-- Whether a task of the list has this key and passes the test.
abbrev pub has_task : (PlanningTask → Bool) → Text → List PlanningTask → Bool
has_task p j tasks = any (λ t. p t && text_beq t.key j) tasks

is_selected-add_visible :
    (j : Text) (m : Dict Bool) (tasks : List PlanningTask)
    → is_selected j (add_visible m tasks)
      ≡ (is_selected j m || has_task (λ t. non_empty t.key) j tasks)
unfolding add_visible
is_selected-add_visible j m [] = ground arith
is_selected-add_visible j m (t ∷ tasks) = ground (
  arith,
  is_selected-add_visible j m tasks,
  is_selected-add_visible j (insert t.key true m) tasks,
  is_selected-insert j t.key m,
)

pub is_selected-nil : (j : Text) → is_selected j [] ≡ false
unfolding is_selected lookup
is_selected-nil j = refl

-- Selecting all visible tasks selects exactly the visible tasks that have a key.
pub is_selected-select_all_visible :
    (j : Text) (tasks : List PlanningTask)
    → is_selected j (select_all_visible_planning_tasks_map tasks)
      ≡ has_task (λ t. non_empty t.key) j tasks
unfolding select_all_visible_planning_tasks_map
is_selected-select_all_visible j tasks =
    ground (arith, is_selected-add_visible j [] tasks, is_selected-nil j)

is_selected-set_each :
    (drop : Bool) (j : Text) (m : Dict Bool) (tasks : List PlanningTask)
    → is_selected j (set_each drop m tasks)
      ≡ (if any (λ t. text_beq t.key j) tasks then not drop else is_selected j m)
unfolding set_each
is_selected-set_each drop j m [] = refl
is_selected-set_each drop j m (t ∷ tasks) = ground (
  arith,
  is_selected-set_each drop j (remove t.key m) tasks,
  is_selected-set_each drop j (insert t.key true m) tasks,
  is_selected-insert j t.key m,
  is_selected-remove j t.key m,
)

any-filter :
    (p q : PlanningTask → Bool) (tasks : List PlanningTask)
    → any q (filter p tasks) ≡ any (λ t. p t && q t) tasks
any-filter p q [] = refl
any-filter p q (t ∷ tasks) = ground (arith, any-filter p q tasks)

module _ (normalize_status : Option Text → Text) where
  is_selected-add_allowed :
      (statuses : List Text) (j : Text) (m : Dict Bool) (tasks : List PlanningTask)
      → is_selected j (add_allowed normalize_status statuses m tasks)
        ≡ (is_selected j m || has_task (is_allowed normalize_status statuses) j tasks)
  unfolding add_allowed
  is_selected-add_allowed statuses j m [] = ground arith
  is_selected-add_allowed statuses j m (t ∷ tasks) = ground (
    arith,
    is_selected-add_allowed statuses j m tasks,
    is_selected-add_allowed statuses j (insert t.key true m) tasks,
    is_selected-insert j t.key m,
  )

  -- Selecting by status selects exactly the tasks with one of the statuses; including by status
  -- adds them to what is selected.
  pub is_selected_by_status :
      (j : Text) (m : Dict Bool) (tasks : List PlanningTask) (statuses : List Text)
      → (is_selected j (select_planning_tasks_by_status_map normalize_status tasks statuses)
          ≡ has_task (is_allowed normalize_status statuses) j tasks)
        × (is_selected j (include_planning_tasks_by_status_map normalize_status m tasks statuses)
            ≡ (is_selected j m || has_task (is_allowed normalize_status statuses) j tasks))
  unfolding select_planning_tasks_by_status_map include_planning_tasks_by_status_map
  is_selected_by_status j m tasks statuses = (
    ground (arith, is_selected-add_allowed statuses j [] tasks, is_selected-nil j),
    is_selected-add_allowed statuses j m tasks,
  )

  -- Toggling by status leaves other tasks alone, and sets the tasks with one of the statuses all
  -- alike: deselected if they were all selected (and there were any), selected if not.
  pub is_selected-toggle_include :
      (j : Text) (m : Dict Bool) (tasks : List PlanningTask) (statuses : List Text)
      → is_selected j (toggle_include_by_status_map normalize_status m tasks statuses).0 ≡ (
          if has_task (is_allowed normalize_status statuses) j tasks
          then not (all_selected_of normalize_status m tasks statuses)
          else is_selected j m)
  unfolding toggle_include_by_status_map
  is_selected-toggle_include j m tasks statuses = ground (
    arith,
    is_selected-set_each (all_selected_of normalize_status m tasks statuses) j m
        (filter (is_allowed normalize_status statuses) tasks),
    any-filter (is_allowed normalize_status statuses) (λ t. text_beq t.key j) tasks,
  )
