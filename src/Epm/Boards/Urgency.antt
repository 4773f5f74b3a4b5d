-- ===== src/Epm/Boards/Urgency.antt =====
-- The priority rank of a board, from the priorities that its open epics have.
use Prim.Native.Nat.{min}
use mathlib.Core.Path.{fun_ext}
use jira_execution_planner.Base.{
  ◌≡◌, refl, sym, ap, ◌∙◌, ℕ, suc, ◌≤◌, Bool, false, ◌&&◌, ◌||◌, not, List, [], ◌∷◌, ◌++◌, map,
  arith, leb, ltb, if◌then◌else◌,
}
use jira_execution_planner.Base.Lists.{length, any, any-append, filter, includes}
use jira_execution_planner.Base.Text.{Text, text, text_beq, text_equality}
use jira_execution_planner.Base.Dict.{lookup}
use jira_execution_planner.Epm.{
  Issue, EpicNode, InitiativeNode, RollupTree, metadata_only, empty_rollup, tree, Board,
}
use jira_execution_planner.Epm.Tree.{gather}
use jira_execution_planner.Epm.Status.{
  normalize_epm_settings_sort_text, normalize_epm_settings_status, terminal_issue_statuses,
}
use jira_execution_planner.Epm.Boards.{
  collect_epm_tree_epic_nodes, get_epm_issue_priority_rank, least, open_epic_issues,
  get_epm_board_priority_rank,
}

-- An epic that is neither done nor killed nor incomplete
abbrev pub is_open : Issue → Bool
is_open i =
    let status = normalize_epm_settings_status i.status in
    not (
      text_beq (text "done") status
      || text_beq (text "killed") status
      || text_beq (text "incomplete") status)

abbrev pub has_priority : Text → Issue → Bool
has_priority name i = text_beq name (normalize_epm_settings_sort_text i.priority)

abbrev pub some_epic : (Issue → Bool) → RollupTree → Bool
some_epic p metadata_only = false
some_epic p empty_rollup = false
some_epic p (tree cut queries initiatives root_epics orphans) =
    any (λ i. any (λ e. p e.issue) i.epics) initiatives || any (λ e. p e.issue) root_epics

-- From the most urgent to the least
abbrev pub priorities : List Text
priorities =
    text "blocker"
    ∷ text "highest"
    ∷ text "critical"
    ∷ text "high"
    ∷ text "major"
    ∷ text "medium"
    ∷ text "minor"
    ∷ text "low"
    ∷ text "trivial"
    ∷ text "lowest"
    ∷ []

-- The number of the first name that `p` finds, or of all names
abbrev pub first_of_names : (Text → Bool) → List Text → ℕ
first_of_names p [] = 0
first_of_names p (name ∷ names) = if p name then 0 else suc (first_of_names p names)

-- The most urgent priority that an open epic of the board has
abbrev pub urgency : Board → ℕ
urgency board =
    first_of_names (λ name. some_epic (λ i. is_open i && has_priority name i) board.tree) priorities

any-gather :
    (p : EpicNode → Bool) (initiatives : List InitiativeNode)
    → any p (gather (λ i. i.epics) initiatives) ≡ any (λ i. any p i.epics) initiatives
any-gather p [] = refl
any-gather p (i ∷ initiatives) =
    ground
      (arith, any-append p i.epics (gather (λ j. j.epics) initiatives), any-gather p initiatives)

any-open :
    (p : Issue → Bool) (q : Issue → Bool) (epics : List EpicNode)
    → any p (filter q (map (λ n. n.issue) epics)) ≡ any (λ e. q e.issue && p e.issue) epics
any-open p q [] = refl
any-open p q (e ∷ epics) = ground (arith, any-open p q epics)

is_open-eq :
    (i : Issue)
    → not (includes (normalize_epm_settings_status i.status) terminal_issue_statuses) ≡ is_open i
is_open-eq i = ground arith

any-open_epic_issues :
    (p : Issue → Bool) (rollup : RollupTree)
    → any p (open_epic_issues rollup) ≡ some_epic (λ i. is_open i && p i) rollup
unfolding collect_epm_tree_epic_nodes
any-open_epic_issues p metadata_only = refl
any-open_epic_issues p empty_rollup = refl
any-open_epic_issues p (tree cut queries initiatives root_epics orphans) =
    let epics = gather (λ i. i.epics) initiatives in
    ap (λ q. any p (filter q (map (λ n. n.issue) (epics ++ root_epics)))) (fun_ext is_open-eq)
    ∙ any-open p is_open (epics ++ root_epics)
    ∙ any-append (λ e. is_open e.issue && p e.issue) epics root_epics
    ∙ ap (λ b. b || any (λ e. is_open e.issue && p e.issue) root_epics)
        (any-gather (λ e. is_open e.issue && p e.issue) initiatives)

-- The rank that a number of `priorities` has
abbrev to_rank : ℕ → ℕ
to_rank n = if ltb n 10 then n else 999

abbrev level : List Text → List Issue → ℕ
level names issues = first_of_names (λ name. any (has_priority name) issues) names

level-cons :
    (names : List Text) (i : Issue) (issues : List Issue)
    → level names (i ∷ issues) ≡ min (level names (i ∷ [])) (level names issues)
level-cons [] i issues = ground arith
level-cons (name ∷ names) i issues = ground (arith, level-cons names i issues)

first_of_names-le : (p : Text → Bool) (names : List Text) → first_of_names p names ≤ length names
first_of_names-le p [] = omega arith
first_of_names-le p (name ∷ names) = ground (arith, first_of_names-le p names)

level-le : (issues : List Issue) → level priorities issues ≤ 10
level-le issues = first_of_names-le (λ name. any (has_priority name) issues) priorities

to_rank-le : (n : ℕ) → to_rank n ≤ 999
to_rank-le n = ground arith

min-to_rank : (m n : ℕ) → m ≤ 10 → n ≤ 10 → min (to_rank m) (to_rank n) ≡ to_rank (min m n)
min-to_rank m n h k = ground arith

rank-level : (i : Issue) → get_epm_issue_priority_rank i ≡ to_rank (level priorities (i ∷ []))
unfolding get_epm_issue_priority_rank lookup
rank-level i = ground arith

least-cons : (n : ℕ) (ms : List ℕ) → n ≤ 999 → least (n ∷ ms) ≡ min n (least ms)
least-cons n [] h = ground arith
least-cons n (m ∷ ms) h = refl

least-level :
    (issues : List Issue)
    → least (map get_epm_issue_priority_rank issues) ≡ to_rank (level priorities issues)
least-level [] = refl
least-level (i ∷ issues) =
    let one = level priorities (i ∷ []) in
    let others = level priorities issues in
    let le : get_epm_issue_priority_rank i ≤ 999 = rw (rank-level i) (to_rank-le one) in
    least-cons (get_epm_issue_priority_rank i) (map get_epm_issue_priority_rank issues) le
    ∙ ap (λ r. min r (least (map get_epm_issue_priority_rank issues))) (rank-level i)
    ∙ ap (λ r. min (to_rank one) r) (least-level issues)
    ∙ min-to_rank one others (level-le (i ∷ [])) (level-le issues)
    ∙ ap to_rank (sym (level-cons priorities i issues))

first_of_names-cong :
    (p q : Text → Bool) (names : List Text)
    → ((name : Text) → p name ≡ q name)
    → first_of_names p names ≡ first_of_names q names
first_of_names-cong p q [] h = refl
first_of_names-cong p q (name ∷ names) h = rw (h name, first_of_names-cong p q names h) refl

-- The rank of a board is given by the most urgent priority of its open epics.
rank-urgency : (board : Board) → get_epm_board_priority_rank board ≡ to_rank (urgency board)
unfolding get_epm_board_priority_rank
rank-urgency board =
    least-level (open_epic_issues board.tree)
    ∙ ap to_rank (
        first_of_names-cong (λ name. any (has_priority name) (open_epic_issues board.tree))
          (λ name. some_epic (λ i. is_open i && has_priority name i) board.tree) priorities
          (λ name. any-open_epic_issues (has_priority name) board.tree))

urgency-le : (c : Board) → urgency c ≤ 10
urgency-le c =
    first_of_names-le (λ name. some_epic (λ i. is_open i && has_priority name i) c.tree) priorities

leb-to_rank : (m n : ℕ) → m ≤ 10 → n ≤ 10 → leb (to_rank m) (to_rank n) ≡ leb m n
leb-to_rank m n h k = ground arith

-- Boards compare by rank as by urgency.
pub rank-le :
    (a b : Board)
    → leb (get_epm_board_priority_rank a) (get_epm_board_priority_rank b)
      ≡ leb (urgency a) (urgency b)
rank-le a b =
    rw (rank-urgency a, rank-urgency b)
      (leb-to_rank (urgency a) (urgency b) (urgency-le a) (urgency-le b))
