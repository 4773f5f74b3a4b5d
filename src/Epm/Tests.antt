-- ===== src/Epm/Tests.antt =====
-- Trees, progress and sub-goals on small inputs.
use jira_execution_planner.Base.{
  ◌-◌, ◌/◌, ltb, ◌≡◌, ◌≢◌, refl, ap, ◌+◌, ◌*◌, true, Option, none, some, List, [], ◌∷◌, map, arith,
}
use jira_execution_planner.Base.Lists.{All, Distinct, length, non_empty}
use jira_execution_planner.Base.Text.{
  Text, text, text_beq, text_equality, trim, trimmed, lower, upper, upper_key,
}
use jira_execution_planner.Epm.{build_rollup_tree}
use jira_execution_planner.Epm.Tree.{tree_issues, trimmed_keys, build_rollup_tree-IsKeySet}
use jira_execution_planner.Epm.Complete.{IsIn, top_issues, build_rollup_tree-covers}
use jira_execution_planner.Epm.Status.{normalize_epm_settings_status}
use jira_execution_planner.Epm.Progress.{
  Arithmetic, collect_epm_project_stories, get_epm_story_points, build_epm_project_progress,
}
use jira_execution_planner.Epm.Progress.Totals.{IsProgressOf, build_epm_project_progress_lem}
use jira_execution_planner.Epm.SubGoals.{get_next_epm_sub_goal_selection}
use jira_execution_planner.Epm.SubGoals.Selection.{IsSelection}
use jira_execution_planner.Epm.SubGoals.Keys.{AreGoalKeys, click, click_twice}
use jira_execution_planner.Epm.Samples.{payload}

program : Unit {0}
unfolding text_beq trim trimmed lower upper upper_key build_rollup_tree tree_issues
    normalize_epm_settings_status get_epm_story_points build_epm_project_progress
    get_next_epm_sub_goal_selection
program = tt

keys_once :
    trimmed_keys (tree_issues (build_rollup_tree payload))
    ≡ text "I-1" ∷ text "E-1" ∷ text "S-1" ∷ text "E-2" ∷ text "S-2" ∷ []
unfolding program
keys_once = refl

build_rollup_tree-IsKeySet_example :
    All (λ k. non_empty k ≡ true) (trimmed_keys (tree_issues (build_rollup_tree payload)))
    × Distinct (trimmed_keys (tree_issues (build_rollup_tree payload)))
build_rollup_tree-IsKeySet_example = build_rollup_tree-IsKeySet payload

build_rollup_tree-covers_example :
    All (IsIn (trimmed_keys (tree_issues (build_rollup_tree payload)))) (top_issues payload)
build_rollup_tree-covers_example = build_rollup_tree-covers payload refl refl

abbrev shown {ℓ} : {A : Type ℓ} → Option A → List A
shown none = []
shown (some a) = a ∷ []

-- Whole numbers, with a percentage rounded down
abbrev exact : Arithmetic
exact = record {
  zero = 0;
  add = λ a b. a + b;
  subtract = λ a b. a - b;
  is_positive = λ a. ltb 0 a;
  max_zero = λ a. a;
  percent_of = λ a b. a * 100 / b;
}

progress_parts :
    map
      (λ p. p.completed + 10 * p.in_progress)
      (shown (build_epm_project_progress exact (build_rollup_tree payload)))
    ≡ 53 ∷ []
unfolding program
progress_parts = refl

build_epm_project_progress_example :
    IsProgressOf exact
      (collect_epm_project_stories (build_rollup_tree payload))
      (build_epm_project_progress exact (build_rollup_tree payload))
build_epm_project_progress_example =
    build_epm_project_progress_lem exact (build_rollup_tree payload)

abbrev goals : List Text
goals = text "G-1" ∷ text "G-2" ∷ text "G-3" ∷ []

goals-AreGoalKeys : AreGoalKeys goals
unfolding program
goals-AreGoalKeys = (
  (
    record { fixed = refl; filled = refl },
    (record { fixed = refl; filled = refl }, (record { fixed = refl; filled = refl }, tt)),
  ),
  (refl, (refl, (refl, tt))),
)

two-IsSelection : IsSelection goals (text "G-1" ∷ text "G-2" ∷ [])
unfolding program
two-IsSelection = record { in_order = refl; proper = omega arith }

click_last : click goals (text "G-1" ∷ text "G-2" ∷ []) (text "G-3") ≡ []
unfolding program
click_last = refl

-- The one selected sub-goal is not switched off: the click shows all of them.
click_alone : click goals (text "G-2" ∷ []) (text "g-2") ≡ []
unfolding program
click_alone = refl

not_alone : (text "G-1" ∷ text "G-2" ∷ []) ≢ text "G-3" ∷ []
not_alone e = ground (arith, ap length e)

click_twice_example :
    click goals (click goals (text "G-1" ∷ text "G-2" ∷ []) (text "G-3")) (text "G-3")
    ≡ text "G-1" ∷ text "G-2" ∷ []
click_twice_example =
    click_twice goals (text "G-1" ∷ text "G-2" ∷ []) (text "G-3") goals-AreGoalKeys two-IsSelection
      (unfold text_beq in refl) not_alone
