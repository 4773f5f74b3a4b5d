-- ===== src/Epm/Search.antt =====
-- The search among boards (`filterEpmRollupBoardsForSearch` of frontend/src/epm/epmProjectUtils.mjs).
pub mod Found
use jira_execution_planner.Base.{
  ℕ, Bool, true, false, ◌&&◌, ◌||◌, not, Option, none, some, List, [], ◌∷◌, ◌++◌, map,
  if◌then◌else◌, nat_beq,
}
use jira_execution_planner.Base.Lists.{filter, non_empty}
use jira_execution_planner.Base.Text.{Text, text, trimmed, lower, join}
use jira_execution_planner.Epm.{
  Issue, EpicNode, InitiativeNode, RollupTree, metadata_only, empty_rollup, tree, Project, Board,
}
use jira_execution_planner.Epm.Tree.{gather}
use jira_execution_planner.Epm.Boards.{get_epm_project_display_name}

unfoldable pub normalize_epm_search_text : Option Text → Text
normalize_epm_search_text value = lower (trimmed value)

unfoldable pub starts_with : Text → Text → Bool
starts_with [] s = true
starts_with (c ∷ q) [] = false
starts_with (c ∷ q) (d ∷ s) = nat_beq c d && starts_with q s

-- `s.includes(q)`
unfoldable pub has_text : Text → Text → Bool
unfolding starts_with
has_text q [] = starts_with q []
has_text q (c ∷ s) = starts_with q (c ∷ s) || has_text q s

-- `parts.filter(Boolean).join(' ')`
unfoldable pub join_filled : List Text → Text
join_filled parts = join (text " ") (filter non_empty parts)

abbrev pub issue_fields : Issue → List (Option Text)
issue_fields issue =
    issue.key ∷ issue.summary ∷ issue.status ∷ issue.issue_type ∷ issue.assignee ∷ issue.team_name
    ∷ issue.parent_key ∷ issue.parent_summary ∷ []

unfoldable pub collect_epm_issue_search_text : Issue → Text
unfolding normalize_epm_search_text join_filled
collect_epm_issue_search_text issue =
    join_filled (map normalize_epm_search_text (issue_fields issue))

abbrev pub epic_parts : EpicNode → List Text
epic_parts epic =
    collect_epm_issue_search_text epic.issue ∷ map collect_epm_issue_search_text epic.stories

abbrev pub initiative_parts : InitiativeNode → List Text
initiative_parts initiative =
    collect_epm_issue_search_text initiative.issue ∷ gather epic_parts initiative.epics
    ++ map collect_epm_issue_search_text initiative.loose_stories

unfoldable pub tree_parts : RollupTree → List Text
tree_parts metadata_only = []
tree_parts empty_rollup = []
tree_parts (tree cut queries initiatives root_epics orphans) =
    gather initiative_parts initiatives
    ++ (gather epic_parts root_epics ++ map collect_epm_issue_search_text orphans)

unfoldable pub collect_epm_tree_search_text : RollupTree → Text
unfolding tree_parts join_filled
collect_epm_tree_search_text rollup = join_filled (tree_parts rollup)

abbrev pub project_fields : Project → List (Option Text)
project_fields project =
    some (get_epm_project_display_name (some project))
    ∷ project.label
    ∷ project.state_label
    ∷ project.state_value
    ∷ project.latest_update_snippet
    ∷ project.latest_update_date
    ∷ project.home_project_id
    ∷ []

abbrev pub board_text : Board → Text
board_text board =
    join_filled (map normalize_epm_search_text (project_fields board.project))
    ++ text " "
    ++ collect_epm_tree_search_text board.tree

unfoldable pub filter_epm_rollup_boards_for_search : Option (List Board) → Option Text → List Board
unfolding collect_epm_tree_search_text has_text
filter_epm_rollup_boards_for_search none query = []
filter_epm_rollup_boards_for_search (some boards) query =
    let q = normalize_epm_search_text query in
    if non_empty q then filter (λ b. has_text q (board_text b)) boards else boards
