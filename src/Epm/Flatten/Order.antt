-- ===== src/Epm/Flatten/Order.antt =====
-- The flat list against the lists of issues it is made of.
use jira_execution_planner.Base.{
  ◌≡◌, refl, sym, ap, ◌∙◌, Bool, true, false, not, ◌||◌, List, [], ◌∷◌, ◌++◌, arith, map,
  if◌then◌else◌, append_assoc, append-nil, Bool-cases, inl, inr,
}
use jira_execution_planner.Base.Lists.{
  Fresh, Fresh-cons, Fresh-nil, All, Distinct, includes, includes-append, non_empty,
}
use jira_execution_planner.Base.Text.{
  Text, text_equality, text_beq, text_beq_iff, trimmed, trim, or_empty,
}
use jira_execution_planner.Epm.{
  Issue, metadata_only, empty_rollup, tree, Board, Project, Payload, build_rollup_tree,
}
use jira_execution_planner.Epm.Tree.{
  gather, epic_issues, initiative_issues, tree_issues, trimmed_keys, build_rollup_tree-IsKeySet,
}
use jira_execution_planner.Epm.Flatten.{
  EngTask, to_epm_eng_task, Flat, add_issue, for_each, add_epic, add_initiative, add_tree,
  flatten_epm_rollup_boards_for_dependencies,
}

-- The issues with a key that is not empty and not in `seen`, the first of each key.
unfoldable pub first_of_each_key : List Text → List Issue → List Issue
first_of_each_key seen [] = []
first_of_each_key seen (i ∷ issues) =
    let old = first_of_each_key seen issues in
    let new = i ∷ first_of_each_key (or_empty i.key ∷ seen) issues in
    if not (non_empty (or_empty i.key)) || includes (or_empty i.key) seen then old else new

-- A function that adds the issues `issues x` of each `x`.
abbrev AddsIssues {ℓ} : {A : Type ℓ} → (Flat → A → Flat) → (A → List Issue) → Type ℓ
AddsIssues add issues = (flat : Flat) (x : _) → add flat x ≡ for_each add_issue flat (issues x)

for_each-append :
    (flat : Flat) (xs ys : List Issue)
    → for_each add_issue (for_each add_issue flat xs) ys ≡ for_each add_issue flat (xs ++ ys)
for_each-append flat [] ys = refl
for_each-append flat (x ∷ xs) ys = for_each-append (add_issue flat x) xs ys

module _ {ℓ} {A : Type ℓ} (add : Flat → A → Flat) (issues : A → List Issue)
    (adds : AddsIssues add issues) where
  for_each-gather :
      (flat : Flat) (xs : List A)
      → for_each add flat xs ≡ for_each add_issue flat (gather issues xs)
  for_each-gather flat [] = refl
  for_each-gather flat (x ∷ xs) =
      for_each-gather (add flat x) xs
      ∙ ap (λ f. for_each add_issue f (gather issues xs)) (adds flat x)
      ∙ for_each-append flat (issues x) (gather issues xs)

add_epic-AddsIssues : AddsIssues add_epic epic_issues
unfolding add_epic
add_epic-AddsIssues flat epic = refl

add_initiative-AddsIssues : AddsIssues add_initiative initiative_issues
unfolding add_initiative
add_initiative-AddsIssues flat n =
    ap (λ f. for_each add_issue f n.loose_stories)
      (for_each-gather add_epic epic_issues add_epic-AddsIssues (add_issue flat n.issue) n.epics)
    ∙ for_each-append (add_issue flat n.issue) (gather epic_issues n.epics) n.loose_stories

add_tree-AddsIssues : AddsIssues add_tree tree_issues
unfolding add_tree tree_issues
add_tree-AddsIssues flat metadata_only = refl
add_tree-AddsIssues flat empty_rollup = refl
add_tree-AddsIssues flat (tree cut queries initiatives root_epics orphans) =
    ap (λ f. for_each add_issue (for_each add_epic f root_epics) orphans)
      (for_each-gather add_initiative initiative_issues add_initiative-AddsIssues flat initiatives)
    ∙ ap (λ f. for_each add_issue f orphans)
        (for_each-gather add_epic epic_issues add_epic-AddsIssues _ root_epics)
    ∙ for_each-append _ (gather epic_issues root_epics) orphans
    ∙ for_each-append flat (gather initiative_issues initiatives) _

-- Two sets with the same members
abbrev SameMembers : List Text → List Text → Type 0
SameMembers s t = (k : Text) → includes k s ≡ includes k t

abbrev is_skipped : List Text → Issue → Bool
is_skipped seen i = not (non_empty (or_empty i.key)) || includes (or_empty i.key) seen

abbrev with_issue : Flat → Issue → Flat
with_issue flat i = record {
  tasks = flat.tasks ++ to_epm_eng_task i ∷ [];
  seen = flat.seen ++ or_empty i.key ∷ [];
}

add_issue-skipped :
    (flat : Flat) (i : Issue) → is_skipped flat.seen i ≡ true → add_issue flat i ≡ flat
unfolding add_issue
add_issue-skipped flat i h = ground arith

add_issue-taken :
    (flat : Flat) (i : Issue)
    → is_skipped flat.seen i ≡ false
    → add_issue flat i ≡ with_issue flat i
unfolding add_issue
add_issue-taken flat i h = ground arith

abbrev tasks_after : List Issue → Flat → List EngTask
tasks_after issues flat = (for_each add_issue flat issues).tasks

add_issues_tasks :
    (flat : Flat) (seen : List Text) (issues : List Issue)
    → SameMembers flat.seen seen
    → tasks_after issues flat ≡ flat.tasks ++ map to_epm_eng_task (first_of_each_key seen issues)
unfolding first_of_each_key
add_issues_tasks flat seen [] h = sym (append-nil flat.tasks)
add_issues_tasks flat seen (i ∷ issues) h = elim (Bool-cases (is_skipped seen i)) [
  | inl old ↦
      ap (tasks_after issues) (add_issue-skipped flat i (ground (arith, h (or_empty i.key))))
      ∙ rw old (add_issues_tasks flat seen issues h)
  | inr new ↦
      ap (tasks_after issues) (add_issue-taken flat i (ground (arith, h (or_empty i.key))))
      ∙ rw new (
          add_issues_tasks (with_issue flat i) (or_empty i.key ∷ seen) issues
            (λ k. ground (arith, h k, includes-append k flat.seen (or_empty i.key ∷ [])))
          ∙ append_assoc flat.tasks (to_epm_eng_task i ∷ []) _)
]

-- The tasks are those of the issues of all boards' trees, in the order of boards and of each tree,
-- of each key that is not empty the first issue only.
pub flatten_lem :
    (boards : List Board)
    → flatten_epm_rollup_boards_for_dependencies boards
      ≡ map to_epm_eng_task (first_of_each_key [] (gather (λ b. tree_issues b.tree) boards))
unfolding flatten_epm_rollup_boards_for_dependencies
flatten_lem boards =
    ap (λ f. f.tasks)
      (for_each-gather (λ flat b. add_tree flat b.tree) (λ b. tree_issues b.tree)
        (λ flat b. add_tree-AddsIssues flat b.tree) (record { tasks = []; seen = [] }) boards)
    ∙ add_issues_tasks (record { tasks = []; seen = [] }) [] _ (λ k. refl)

includes-trim :
    (k : Text) (seen : List Text)
    → includes k seen ≡ true
    → includes (trim k) (map trim seen) ≡ true
includes-trim k [] h = h
includes-trim k (x ∷ seen) h = elim (Bool-cases (text_beq x k)) [
  | inl e ↦ ground (arith, ap trim ((text_beq_iff x k).0 e), text_beq_iff (trim x) (trim k))
  | inr e ↦ ground (arith, includes-trim k seen)
]

non_empty-trim : (s : Text) → non_empty (trim s) ≡ true → non_empty s ≡ true
unfolding trim
non_empty-trim [] h = h
non_empty-trim (c ∷ s) h = refl

-- In a list of issues whose trimmed keys are distinct and not blank, every issue is the first.
first_of_each_key-Distinct :
    (seen : List Text) (issues : List Issue)
    → All (λ k. non_empty k ≡ true) (trimmed_keys issues)
    → Distinct (trimmed_keys issues)
    → Fresh (map trim seen) (trimmed_keys issues)
    → first_of_each_key seen issues ≡ issues
unfolding first_of_each_key trimmed
first_of_each_key-Distinct seen [] n d f = refl
first_of_each_key-Distinct seen (i ∷ issues) n d f =
    let taken : is_skipped seen i ≡ false =
      ground
        (arith, non_empty-trim (or_empty i.key) n.0, includes-trim (or_empty i.key) seen, f.0) in
    rw taken (
      ap (λ l. i ∷ l)
        (first_of_each_key-Distinct (or_empty i.key ∷ seen) issues n.1 d.1
          (Fresh-cons (trim (or_empty i.key)) (map trim seen) (trimmed_keys issues) d.0 f.1)))

-- The list made of one board whose tree `buildRollupTree` built has every issue of that tree, in
-- the tree's order.
pub flatten-build :
    (project : Project) (payload : Payload)
    → flatten_epm_rollup_boards_for_dependencies
        (record { project = project; tree = build_rollup_tree payload } ∷ [])
      ≡ map to_epm_eng_task (tree_issues (build_rollup_tree payload))
flatten-build project payload =
    let issues = tree_issues (build_rollup_tree payload) in
    let fresh = build_rollup_tree-IsKeySet payload in
    flatten_lem _
    ∙ ap (λ l. map to_epm_eng_task (first_of_each_key [] l)) (append-nil issues)
    ∙ ap (map to_epm_eng_task) (first_of_each_key-Distinct [] issues fresh.0 fresh.1 (Fresh-nil _))
