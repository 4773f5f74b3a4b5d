-- ===== src/Epm/Tree.antt =====
-- Each issue stands once in a tree: the set of seen keys is the list of the tree's own keys.
use jira_execution_planner.Base.{
  ◌≡◌, refl, sym, ap, ◌∙◌, true, false, Option, none, some, List, [], ◌∷◌, ◌++◌, subst, Bool-cases,
  inl, inr, append_assoc, append-nil, if_cases, map,
}
use jira_execution_planner.Base.Lists.{
  All, All-append, Distinct, Distinct-snoc, includes, non_empty,
}
use jira_execution_planner.Base.Text.{Text, text_equality, trimmed}
use jira_execution_planner.Epm.{
  Issue, RawEpic, RawInitiative, Payload, EpicNode, InitiativeNode, RollupTree, metadata_only,
  empty_rollup, tree, collection_values, Seen, Taking, take_issue_once, keep, take_each, epic_of,
  normalize_epic_node, initiative_of, normalize_initiative_node, build_rollup_tree,
}

-- All of `f` at the members of a list, in their order.
abbrev pub gather {ℓ κ} : {A : Type ℓ} {B : Type κ} → (A → List B) → List A → List B
gather f [] = []
gather f (x ∷ xs) = f x ++ gather f xs

-- The issues of a tree in the order in which the screen shows them: an issue before its own.
abbrev pub epic_issues : EpicNode → List Issue
epic_issues node = node.issue ∷ node.stories

abbrev pub initiative_issues : InitiativeNode → List Issue
initiative_issues node = node.issue ∷ gather epic_issues node.epics ++ node.loose_stories

unfoldable pub tree_issues : RollupTree → List Issue
tree_issues metadata_only = []
tree_issues empty_rollup = []
tree_issues (tree cut queries initiatives root_epics orphans) =
    gather initiative_issues initiatives ++ (gather epic_issues root_epics ++ orphans)

abbrev pub trimmed_keys : List Issue → List Text
trimmed_keys issues = map (λ i. trimmed i.key) issues

map-append {ℓ κ} :
    {A : Type ℓ} {B : Type κ} (f : A → B) (xs ys : List A) → map f (xs ++ ys) ≡ map f xs ++ map f ys
map-append f [] ys = refl
map-append f (x ∷ xs) ys = ap (λ l. f x ∷ l) (map-append f xs ys)

abbrev pub gather_option {ℓ κ} : {A : Type ℓ} {B : Type κ} → (A → List B) → Option A → List B
gather_option f none = []
gather_option f (some x) = f x

abbrev pub IsKeySet : Seen → Type 0
IsKeySet seen = All (λ k. non_empty k ≡ true) seen × Distinct seen

-- What was taken after `seen` and the set `after` it agree, and the set stays one.
pub record Took (seen : Seen) (taken : List Issue) (after : Seen) : Type 0 where
  pub adds : after ≡ seen ++ trimmed_keys taken
  pub keeps : IsKeySet seen → IsKeySet after

Took-none : (seen : Seen) → Took seen [] seen
Took-none seen = record { adds = sym (append-nil seen); keeps = λ h. h }

Took-append : (s t u : Seen) (xs ys : List Issue) → Took s xs t → Took t ys u → Took s (xs ++ ys) u
Took-append s t u xs ys a b = record {
  adds =
      b.adds
      ∙ ap (λ l. l ++ trimmed_keys ys) a.adds
      ∙ append_assoc s (trimmed_keys xs) (trimmed_keys ys)
      ∙ ap (λ l. s ++ l) (sym (map-append (λ i. trimmed i.key) xs ys));
  keeps = λ h. b.keeps (a.keeps h);
}

abbrev pub Takes : {A B : Type 0} → (B → List Issue) → Taking A B → Type 0
Takes issues take =
    (a : _) (seen : Seen) → Took seen (gather_option issues (take a seen).0) (take a seen).1

keep-gather {ℓ κ} :
    {A : Type ℓ} {B : Type κ} (f : A → List B) (o : Option A) (xs : List A)
    → gather f (keep o xs) ≡ gather_option f o ++ gather f xs
keep-gather f none xs = refl
keep-gather f (some x) xs = refl

IsKeySet-snoc :
    (key : Text) (seen : Seen)
    → non_empty key ≡ true
    → includes key seen ≡ false
    → IsKeySet seen
    → IsKeySet (seen ++ key ∷ [])
IsKeySet-snoc key seen n f h =
    (All-append (λ k. non_empty k ≡ true) seen (key ∷ []) h.0 (n, tt), Distinct-snoc key seen f h.1)

abbrev pub one : Issue → List Issue
one i = i ∷ []

pub take_issue_once-Takes : Takes one take_issue_once
unfolding take_issue_once
take_issue_once-Takes none seen = Took-none seen
take_issue_once-Takes (some i) seen = elim (Bool-cases (non_empty (trimmed i.key))) [
  | inr blank ↦ rw blank (Took-none seen)
  | inl n ↦ elim (Bool-cases (includes (trimmed i.key) seen)) [
    | inl old ↦ rw (n, old) (Took-none seen)
    | inr f ↦ rw (n, f) (record { adds = refl; keeps = IsKeySet-snoc (trimmed i.key) seen n f })
  ]
]

module _ {A B : Type 0} (issues : B → List Issue) (take : Taking A B)
    (takes : Takes issues take) where
  pub take_each-Took :
      (values : List A) (seen : Seen)
      → Took seen (gather issues (take_each take values seen).0) (take_each take values seen).1
  unfolding take_each
  take_each-Took [] seen = Took-none seen
  take_each-Took (a ∷ values) seen =
      subst (λ l. Took seen l (take_each take values (take a seen).1).1)
        (sym (keep-gather issues (take a seen).0 (take_each take values (take a seen).1).0))
        (Took-append seen (take a seen).1 _ _ _ (takes a seen)
          (take_each-Took values (take a seen).1))

gather-one : (xs : List Issue) → gather one xs ≡ xs
gather-one [] = refl
gather-one (x ∷ xs) = ap (λ l. x ∷ l) (gather-one xs)

pub stories-Took :
    (values : List (Option Issue)) (seen : Seen)
    → Took seen (take_each take_issue_once values seen).0 (take_each take_issue_once values seen).1
stories-Took values seen =
    subst (λ l. Took seen l (take_each take_issue_once values seen).1)
      (gather-one (take_each take_issue_once values seen).0)
      (take_each-Took one take_issue_once take_issue_once-Takes values seen)

epic_of-Took :
    (node : RawEpic) (s : Seen) (first : Option Issue × Seen)
    → Took s (gather_option one first.0) first.1
    → Took s (gather_option epic_issues (epic_of node first).0) (epic_of node first).1
epic_of-Took node s (none, seen) h = h
epic_of-Took node s (some i, seen) h =
    Took-append s seen _ (i ∷ []) _ h (stories-Took (collection_values node.stories) seen)

pub normalize_epic_node-Takes : Takes epic_issues normalize_epic_node
unfolding normalize_epic_node
normalize_epic_node-Takes node seen =
    epic_of-Took node seen (take_issue_once node.issue seen) (take_issue_once-Takes node.issue seen)

initiative_of-Took :
    (node : RawInitiative) (s : Seen) (first : Option Issue × Seen)
    → Took s (gather_option one first.0) first.1
    → Took s
        (gather_option initiative_issues (initiative_of node first).0)
        (initiative_of node first).1
initiative_of-Took node s (none, seen) h = h
initiative_of-Took node s (some i, seen) h =
    let epics = take_each normalize_epic_node (collection_values node.epics) seen in
    Took-append s seen _ (i ∷ []) _ h (
      Took-append seen epics.1 _ (gather epic_issues epics.0) _
        (take_each-Took epic_issues normalize_epic_node normalize_epic_node-Takes
          (collection_values node.epics) seen)
        (stories-Took (collection_values node.loose_stories) epics.1))

pub normalize_initiative_node-Takes : Takes initiative_issues normalize_initiative_node
unfolding normalize_initiative_node
normalize_initiative_node-Takes node seen =
    initiative_of-Took node seen (take_issue_once node.issue seen)
      (take_issue_once-Takes node.issue seen)

-- The three passes of `buildRollupTree`, with the set that they leave.
abbrev pub initiatives_pass : Payload → List InitiativeNode × Seen
initiatives_pass p = take_each normalize_initiative_node (collection_values p.initiatives) []

abbrev pub root_epics_pass : Payload → List EpicNode × Seen
root_epics_pass p =
    take_each normalize_epic_node (collection_values p.root_epics) (initiatives_pass p).1

abbrev pub orphans_pass : Payload → List Issue × Seen
orphans_pass p =
    take_each take_issue_once (collection_values p.orphan_stories) (root_epics_pass p).1

pub passes-Took :
    (p : Payload)
    → Took []
        (gather initiative_issues (initiatives_pass p).0
          ++ (gather epic_issues (root_epics_pass p).0 ++ (orphans_pass p).0))
        (orphans_pass p).1
passes-Took p =
    Took-append [] (initiatives_pass p).1 _ _ _
      (take_each-Took initiative_issues normalize_initiative_node normalize_initiative_node-Takes
        (collection_values p.initiatives) [])
      (Took-append (initiatives_pass p).1 (root_epics_pass p).1 _ _ _
        (take_each-Took epic_issues normalize_epic_node normalize_epic_node-Takes
          (collection_values p.root_epics) (initiatives_pass p).1)
        (stories-Took (collection_values p.orphan_stories) (root_epics_pass p).1))

-- No issue of a built tree has a blank key, and no two have the same key after trimming,
-- wherever in the tree they stand.
pub build_rollup_tree-IsKeySet :
    (payload : Payload)
    → All (λ k. non_empty k ≡ true) (trimmed_keys (tree_issues (build_rollup_tree payload)))
      × Distinct (trimmed_keys (tree_issues (build_rollup_tree payload)))
unfolding build_rollup_tree tree_issues
build_rollup_tree-IsKeySet p =
    if_cases (λ t. IsKeySet (trimmed_keys (tree_issues t))) p.metadata_only (λ _. (tt, tt))
      (λ _.
        if_cases (λ t. IsKeySet (trimmed_keys (tree_issues t))) p.empty_rollup (λ _. (tt, tt))
          (λ _. let took = passes-Took p in subst IsKeySet took.adds (took.keeps (tt, tt))))
