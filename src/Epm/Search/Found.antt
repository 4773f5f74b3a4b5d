-- ===== src/Epm/Search/Found.antt =====
-- What the search finds.
use jira_execution_planner.Base.{
  ◌≡◌, refl, ◌∙◌, ap, Bool, true, false, ◌&&◌, ◌||◌, not, Option, some, List, [], ◌∷◌, ◌++◌, arith,
  map, Bool-cases, inl, inr, nat_beq,
}
use jira_execution_planner.Base.Lists.{any, any-append, filter, non_empty}
use jira_execution_planner.Base.Text.{Text, text, join}
use jira_execution_planner.Epm.{
  Issue, EpicNode, InitiativeNode, RollupTree, metadata_only, empty_rollup, tree, Project, Board,
}
use jira_execution_planner.Epm.Tree.{gather, epic_issues, initiative_issues, tree_issues}
use jira_execution_planner.Epm.Boards.{get_epm_project_display_name}
use jira_execution_planner.Epm.Search.{
  normalize_epm_search_text, starts_with, has_text, join_filled, issue_fields,
  collect_epm_issue_search_text, epic_parts, initiative_parts, tree_parts,
  collect_epm_tree_search_text, project_fields, board_text, filter_epm_rollup_boards_for_search,
}

-- A text without a space
abbrev pub spaceless : Text → Bool
spaceless [] = true
spaceless (c ∷ q) = not (nat_beq c 32) && spaceless q

-- The field, trimmed and in lower case, contains the query.
abbrev pub says : Text → Option Text → Bool
says q field = has_text q (normalize_epm_search_text field)

abbrev pub issue_says : Text → Issue → Bool
issue_says q i =
    says q i.key
    || says q i.summary
    || says q i.status
    || says q i.issue_type
    || says q i.assignee
    || says q i.team_name
    || says q i.parent_key
    || says q i.parent_summary

abbrev pub project_says : Text → Project → Bool
project_says q p =
    says q (some (get_epm_project_display_name (some p)))
    || says q p.label
    || says q p.state_label
    || says q p.state_value
    || says q p.latest_update_snippet
    || says q p.latest_update_date
    || says q p.home_project_id

abbrev pub board_says : Text → Board → Bool
board_says q board = project_says q board.project || any (issue_says q) (tree_issues board.tree)

starts_with-space :
    (q s t : Text) → spaceless q ≡ true → starts_with q (s ++ text " " ++ t) ≡ starts_with q s
unfolding starts_with
starts_with-space [] s t h = refl
starts_with-space (c ∷ q) [] t h = ground (arith, h)
starts_with-space (c ∷ q) (d ∷ s) t h = ground (arith, starts_with-space q s t)

has_text-nil : (q : Text) → non_empty q ≡ true → has_text q [] ≡ false
unfolding has_text starts_with
has_text-nil [] h = absurd (ground arith)
has_text-nil (c ∷ q) h = refl

-- A text without a space is in two joined texts when it is in one of them.
has_text-space :
    (q s t : Text)
    → spaceless q ≡ true
    → non_empty q ≡ true
    → has_text q (s ++ text " " ++ t) ≡ (has_text q s || has_text q t)
unfolding has_text starts_with
has_text-space [] s t h n = absurd (ground arith)
has_text-space (c ∷ q) [] t h n = ground (arith, h)
has_text-space (c ∷ q) (d ∷ s) t h n =
    ground (arith, has_text-space (c ∷ q) s t h n, starts_with-space (c ∷ q) (d ∷ s) t h)

has_text-empty : (s : Text) → has_text [] s ≡ true
unfolding has_text starts_with
has_text-empty [] = refl
has_text-empty (c ∷ s) = refl

any-filled :
    (q : Text) (parts : List Text)
    → non_empty q ≡ true
    → any (has_text q) (filter non_empty parts) ≡ any (has_text q) parts
any-filled q [] h = refl
any-filled q ([] ∷ parts) h = ground (arith, any-filled q parts h, has_text-nil q h)
any-filled q ((c ∷ p) ∷ parts) h = ground (arith, any-filled q parts h)

module _ (q : Text) (h : spaceless q ≡ true) (n : non_empty q ≡ true) where
  has_text-join : (parts : List Text) → has_text q (join (text " ") parts) ≡ any (has_text q) parts
  unfolding join
  has_text-join [] = has_text-nil q n
  has_text-join (p ∷ []) = ground arith
  has_text-join (p ∷ r ∷ parts) =
      has_text-space q p (join (text " ") (r ∷ parts)) h n
      ∙ ap (λ b. has_text q p || b) (has_text-join (r ∷ parts))

  has_text-join_filled :
      (parts : List Text) → has_text q (join_filled parts) ≡ any (has_text q) parts
  unfolding join_filled
  has_text-join_filled parts = has_text-join (filter non_empty parts) ∙ any-filled q parts n

  issue-says : (i : Issue) → has_text q (collect_epm_issue_search_text i) ≡ issue_says q i
  unfolding collect_epm_issue_search_text
  issue-says i =
      has_text-join_filled (map normalize_epm_search_text (issue_fields i)) ∙ ground arith

  stories-say :
      (stories : List Issue)
      → any (has_text q) (map collect_epm_issue_search_text stories) ≡ any (issue_says q) stories
  stories-say [] = refl
  stories-say (i ∷ stories) = ground (arith, issue-says i, stories-say stories)

  gather-says :
      {A : Type 0} (parts : A → List Text) (issues : A → List Issue)
      → ((a : A) → any (has_text q) (parts a) ≡ any (issue_says q) (issues a))
      → (xs : List A) → any (has_text q) (gather parts xs) ≡ any (issue_says q) (gather issues xs)
  gather-says parts issues each [] = refl
  gather-says parts issues each (x ∷ xs) = ground (
    arith,
    any-append (issue_says q) (issues x) (gather issues xs),
    any-append (has_text q) (parts x) (gather parts xs),
    each x,
    gather-says parts issues each xs,
  )

  epic-says : (e : EpicNode) → any (has_text q) (epic_parts e) ≡ any (issue_says q) (epic_issues e)
  epic-says e = ground (arith, issue-says e.issue, stories-say e.stories)

  initiative-says :
      (e : InitiativeNode)
      → any (has_text q) (initiative_parts e) ≡ any (issue_says q) (initiative_issues e)
  initiative-says e = ground (
    arith,
    issue-says e.issue,
    stories-say e.loose_stories,
    gather-says epic_parts epic_issues epic-says e.epics,
    any-append (issue_says q) (gather epic_issues e.epics) e.loose_stories,
    any-append (has_text q) (gather epic_parts e.epics)
        (map collect_epm_issue_search_text e.loose_stories),
  )

  tree-says :
      (rollup : RollupTree)
      → any (has_text q) (tree_parts rollup) ≡ any (issue_says q) (tree_issues rollup)
  unfolding tree_issues tree_parts
  tree-says metadata_only = refl
  tree-says empty_rollup = refl
  tree-says (tree cut queries initiatives root_epics orphans) = ground (
    arith,
    stories-say orphans,
    gather-says epic_parts epic_issues epic-says root_epics,
    gather-says initiative_parts initiative_issues initiative-says initiatives,
    any-append (issue_says q) (gather initiative_issues initiatives)
        (gather epic_issues root_epics ++ orphans),
    any-append (issue_says q) (gather epic_issues root_epics) orphans,
    any-append (has_text q) (gather initiative_parts initiatives)
        (gather epic_parts root_epics ++ map collect_epm_issue_search_text orphans),
    any-append (has_text q) (gather epic_parts root_epics)
        (map collect_epm_issue_search_text orphans),
  )

  project-says :
      (p : Project)
      → has_text q (join_filled (map normalize_epm_search_text (project_fields p)))
        ≡ project_says q p
  project-says p =
      has_text-join_filled (map normalize_epm_search_text (project_fields p)) ∙ ground arith

  board-says : (board : Board) → has_text q (board_text board) ≡ board_says q board
  unfolding collect_epm_tree_search_text
  board-says board =
      has_text-space q (join_filled (map normalize_epm_search_text (project_fields board.project)))
        (collect_epm_tree_search_text board.tree) h n
      ∙ rw
          (
            project-says board.project,
            has_text-join_filled (tree_parts board.tree),
            tree-says board.tree,
          )
          refl

  kept :
      (boards : List Board)
      → filter (λ b. has_text q (board_text b)) boards ≡ filter (board_says q) boards
  kept [] = refl
  kept (b ∷ boards) = ground (arith, kept boards, board-says b)

all_say :
    (q : Text) (boards : List Board) → non_empty q ≡ false → boards ≡ filter (board_says q) boards
all_say (c ∷ q) boards h = absurd (ground arith)
all_say [] [] h = refl
all_say [] (b ∷ boards) h = ground (
  arith,
  all_say [] boards h,
  has_text-empty (normalize_epm_search_text (some (get_epm_project_display_name (some b.project)))),
)

-- A query in which trimming leaves no space finds, in their order, exactly the boards that have
-- it, with case and surrounding space ignored, in the shown name, label, state label, state,
-- latest update text or date, or home identifier of their project, or in the key, summary,
-- status, type, assignee, team name, parent key or parent summary of an issue of their tree. A
-- blank query finds all.
pub filter_epm_rollup_boards_for_search_lem :
    (boards : List Board) (query : Option Text)
    → spaceless (normalize_epm_search_text query) ≡ true
    → filter_epm_rollup_boards_for_search (some boards) query
      ≡ filter (board_says (normalize_epm_search_text query)) boards
unfolding filter_epm_rollup_boards_for_search
filter_epm_rollup_boards_for_search_lem boards query h =
    let q = normalize_epm_search_text query in
    elim (Bool-cases (non_empty q)) [
      | inl n ↦ rw n (kept q h n boards)
      | inr blank ↦ rw blank (all_say q boards blank)
    ]
