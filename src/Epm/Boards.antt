-- ===== src/Epm/Boards.antt =====
-- The order of the boards (`sortEpmRollupBoards` of frontend/src/epm/epmProjectUtils.mjs).
-- `localeCompare` is the parameter `locale_compare`: the sign of its result.
pub mod Urgency
pub mod Order
mod Tests
use Prim.Native.Nat.{compare, Ordering, min}
use jira_execution_planner.Base.{
  ℕ, Bool, true, false, not, Option, none, some, List, [], ◌∷◌, ◌++◌, map, if◌then◌else◌,
}
use jira_execution_planner.Base.Lists.{filter, includes}
use jira_execution_planner.Base.Text.{Text, text, text_beq, text_equality, trimmed}
use jira_execution_planner.Base.Dict.{Dict, lookup}
use jira_execution_planner.Base.Comparator.{then_by, reverse}
use jira_execution_planner.Base.Indexed.{sort_indexed}
use jira_execution_planner.Epm.{
  Issue, EpicNode, RollupTree, metadata_only, empty_rollup, tree, Project, Board,
}
use jira_execution_planner.Epm.Tree.{gather}
use jira_execution_planner.Epm.Status.{
  normalize_epm_settings_sort_text, normalize_epm_settings_status, terminal_issue_statuses,
  first_of,
}
use jira_execution_planner.Epm.Dates.{parse_epm_project_date, is_recently_completed_epm_project}

pub data Sort : Type 0 where
  priority updated_desc updated_asc : Sort

unfoldable pub normalize_epm_project_sort : Option Text → Sort
unfolding normalize_epm_settings_sort_text
normalize_epm_project_sort value =
    let key = normalize_epm_settings_sort_text value in
    if text_beq key (text "updated-desc")
    then updated_desc
    else if text_beq key (text "updated-asc")
    then updated_asc
    else priority

unfoldable pub get_epm_project_display_name : Option Project → Text
get_epm_project_display_name none = []
get_epm_project_display_name (some project) =
    trimmed (first_of project.display_name (first_of project.name project.home_project_id))

abbrev pub priority_order : Dict ℕ
priority_order =
    (text "blocker", 0)
    ∷ (text "highest", 1)
    ∷ (text "critical", 2)
    ∷ (text "high", 3)
    ∷ (text "major", 4)
    ∷ (text "medium", 5)
    ∷ (text "minor", 6)
    ∷ (text "low", 7)
    ∷ (text "trivial", 8)
    ∷ (text "lowest", 9)
    ∷ []

unfoldable pub collect_epm_tree_epic_nodes : RollupTree → List EpicNode
collect_epm_tree_epic_nodes metadata_only = []
collect_epm_tree_epic_nodes empty_rollup = []
collect_epm_tree_epic_nodes (tree cut queries initiatives root_epics orphans) =
    gather (λ i. i.epics) initiatives ++ root_epics

abbrev rank_or_999 : Option ℕ → ℕ
rank_or_999 none = 999
rank_or_999 (some n) = n

unfoldable pub get_epm_issue_priority_rank : Issue → ℕ
unfolding normalize_epm_settings_sort_text
get_epm_issue_priority_rank issue =
    rank_or_999 (lookup (normalize_epm_settings_sort_text issue.priority) priority_order)

-- `Math.min(...ranks)`, 999 of none
abbrev pub least : List ℕ → ℕ
least [] = 999
least (n ∷ []) = n
least (n ∷ m ∷ ranks) = min n (least (m ∷ ranks))

abbrev pub open_epic_issues : RollupTree → List Issue
open_epic_issues rollup =
    filter (λ i. not (includes (normalize_epm_settings_status i.status) terminal_issue_statuses))
      (map (λ n. n.issue) (collect_epm_tree_epic_nodes rollup))

unfoldable pub get_epm_board_priority_rank : Board → ℕ
unfolding collect_epm_tree_epic_nodes get_epm_issue_priority_rank
get_epm_board_priority_rank board =
    least (map get_epm_issue_priority_rank (open_epic_issues board.tree))

pub data Direction : Type 0 where
  asc desc : Direction

unfoldable pub compare_nullable_time : Option ℕ → Option ℕ → Direction → Ordering
compare_nullable_time none none direction = Ordering.eq
compare_nullable_time none (some r) direction = Ordering.gt
compare_nullable_time (some l) none direction = Ordering.lt
compare_nullable_time (some l) (some r) asc = compare l r
compare_nullable_time (some l) (some r) desc = compare r l

-- The comparator of names reads `a.board?.project` of its arguments, and it is called with boards,
-- which have no field `board`.
abbrev project_in : Board → Option Project
project_in board = none

module _ (utc_day : ℕ → ℕ → ℕ → ℕ) (now_day : Option ℕ) where
  abbrev pub completed_rank : Board → ℕ
  completed_rank board =
      if is_recently_completed_epm_project utc_day now_day board.project then 0 else 1

  abbrev pub updated_time : Board → Option ℕ
  updated_time board = parse_epm_project_date utc_day now_day board.project.latest_update_date

  abbrev pub by_priority : Board → Board → Ordering
  by_priority a b = compare (get_epm_board_priority_rank a) (get_epm_board_priority_rank b)

  abbrev pub by_time : Direction → Board → Board → Ordering
  by_time direction a b = compare_nullable_time (updated_time a) (updated_time b) direction

  -- The three branches of the comparator
  abbrev pub by_sort : Sort → Board → Board → Ordering
  by_sort updated_asc a b = then_by (by_time asc a b) (by_priority a b)
  by_sort updated_desc a b = then_by (by_time desc a b) (by_priority a b)
  by_sort priority a b = then_by (by_priority a b) (by_time desc a b)

module _ (locale_compare : Text → Text → Ordering) where
  unfoldable pub compare_epm_board_name : Board → Board → Ordering
  unfolding get_epm_project_display_name normalize_epm_settings_sort_text
  compare_epm_board_name a b =
      locale_compare
        (normalize_epm_settings_sort_text (some (get_epm_project_display_name (project_in a))))
        (normalize_epm_settings_sort_text (some (get_epm_project_display_name (project_in b))))

  module _ (utc_day : ℕ → ℕ → ℕ → ℕ) (now_day : Option ℕ) where
    -- The comparator but for the index
    unfoldable pub compare_boards : Sort → Board → Board → Ordering
    unfolding compare_nullable_time compare_epm_board_name get_epm_board_priority_rank
    compare_boards sort_key a b =
        then_by (compare (completed_rank utc_day now_day a) (completed_rank utc_day now_day b))
          (then_by (by_sort utc_day now_day sort_key a b) (compare_epm_board_name a b))

    unfoldable pub sort_epm_rollup_boards : List Board → Option Text → List Board
    unfolding compare_boards sort_indexed
    sort_epm_rollup_boards boards sort_key =
        sort_indexed (compare_boards (normalize_epm_project_sort sort_key)) boards
