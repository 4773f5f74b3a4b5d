-- ===== src/Scenario/Tests.antt =====
-- The scenario planner on small inputs. A date is its own text: its first unit is its time.
use jira_execution_planner.Base.{◌↔◌, ℕ, ◌≡◌, refl, true, Option, none, some, List, [], ◌∷◌}
use jira_execution_planner.Base.Lists.{includes, All, Distinct}
use jira_execution_planner.Base.Text.{Text, text, text_beq, text_le, text_equality, decimal, digits}
use jira_execution_planner.Base.Dict.{Dict, lookup}
use jira_execution_planner.Scenario.Undo.{
  StackCall, push, undo, redo, create_undo_stack, call_all, call, push_command, undo_command,
  redo_command, step_all, history_of, call_all-step_all,
}
use jira_execution_planner.Scenario.Bars.{
  Issue, Override, compute_date_source, apply_issue_override, with_source, clip,
  build_capacity_placeholder_rows, IsRow, rows-IsRow, from_override,
}
use jira_execution_planner.Scenario.Segments.{
  parse_scenario_date, segments_from, inner_bounds, split_between, split_at_sprint_boundaries,
}
use jira_execution_planner.Scenario.Dependencies.{
  is_violated, is_edge_violated, Edge, validate_from, validate_dependencies,
  includes-validate_dependencies, NamesLate,
}

program : Unit {0}
unfolding text_beq text_le decimal digits lookup call_all call push_command undo_command
    redo_command compute_date_source apply_issue_override with_source clip
    build_capacity_placeholder_rows parse_scenario_date segments_from inner_bounds split_between
    split_at_sprint_boundaries is_violated is_edge_violated validate_from
program = tt

abbrev calls : List (StackCall ℕ)
calls = push 1 ∷ push 2 ∷ undo ∷ redo ∷ undo ∷ push 3 ∷ redo ∷ undo ∷ []

returned-calls :
    (call_all calls create_undo_stack).0
    ≡ none ∷ none ∷ some 2 ∷ some 2 ∷ some 2 ∷ none ∷ none ∷ some 3 ∷ []
unfolding program
returned-calls = refl

call_all-step_all_example :
    ((call_all calls create_undo_stack).0, history_of (call_all calls create_undo_stack).1)
    ≡ step_all calls (history_of create_undo_stack)
call_all-step_all_example = call_all-step_all calls create_undo_stack

abbrev read_time : Text → Option ℕ
read_time [] = none
read_time (c ∷ s) = some c

abbrev show_time : ℕ → Text
show_time t = t ∷ []

abbrev bar : Text → ℕ → ℕ → Issue
bar key s e = record {
  key = key;
  original_key = none;
  start_date = some (s ∷ []);
  end_date = some (e ∷ []);
  jira_start_date = none;
  jira_due_date = some (9 ∷ []);
  date_source = none;
}

abbrev a1 : Issue
a1 = bar (text "A-1") 10 40

abbrev moved : Override
moved = record { start_date = some (12 ∷ []); end_date = none }

source-moved : (apply_issue_override a1 (some moved)).date_source ≡ some from_override
unfolding program
source-moved = refl

rows-IsRow_example : All (IsRow (text "A-1" ∷ []) (20 ∷ []) (30 ∷ [])) (
    build_capacity_placeholder_rows
      (a1 ∷ [])
      (some (text "A-1" ∷ []))
      (some (20 ∷ []))
      (some (30 ∷ [])))
rows-IsRow_example = rows-IsRow (a1 ∷ []) (text "A-1" ∷ []) (some (20 ∷ [])) (some (30 ∷ []))

abbrev sprints : List ℕ
sprints = 10 ∷ 20 ∷ 30 ∷ 40 ∷ []

abbrev plan : Dict Issue
plan = (text "A-1", a1) ∷ (text "B-2", bar (text "B-2") 35 50) ∷ []

abbrev edges : List Edge
edges =
    record { from_key = some (text "A-1"); to_key = some (text "B-2") }
    ∷ record { from_key = some (text "B-2"); to_key = none }
    ∷ []

violations-plan : validate_dependencies read_time edges plan ≡ text "A-1->B-2" ∷ []
unfolding program
violations-plan = refl

includes-validate_example :
    ((k : Text)
      → (includes k (validate_dependencies read_time edges plan) ≡ true)
        ↔ NamesLate read_time plan k edges)
    × Distinct (validate_dependencies read_time edges plan)
includes-validate_example = includes-validate_dependencies read_time edges plan
