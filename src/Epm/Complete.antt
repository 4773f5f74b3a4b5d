-- ===== src/Epm/Complete.antt =====
-- What the payload lists at its top level reaches the tree.
use jira_execution_planner.Base.{
  ◌≡◌, refl, ap, subst, true, false, Option, none, some, List, [], ◌∷◌, ◌++◌, arith, map,
}
use jira_execution_planner.Base.Lists.{
  All, All-append, All-map, includes, non_empty, includes-append,
}
use jira_execution_planner.Base.Text.{Text, text_equality, trimmed, text_beq_iff}
use jira_execution_planner.Epm.{
  Issue, RawEpic, RawInitiative, Payload, collection_values, Seen, Taking, take_issue_once,
  take_each, epic_of, normalize_epic_node, initiative_of, normalize_initiative_node,
  build_rollup_tree,
}
use jira_execution_planner.Epm.Tree.{
  Took, Takes, one, epic_issues, initiative_issues, trimmed_keys, tree_issues,
  take_issue_once-Takes, take_each-Took, stories-Took, normalize_epic_node-Takes,
  normalize_initiative_node-Takes, passes-Took, initiatives_pass, root_epics_pass, orphans_pass,
}

abbrev pub key_or_blank : Option Issue → Text
key_or_blank none = []
key_or_blank (some i) = trimmed i.key

-- `after` has every key of `seen`.
abbrev Grows : Seen → Seen → Type 0
Grows seen after = (k : Text) → includes k seen ≡ true → includes k after ≡ true

Grows-of_Took :
    (seen : Seen) (taken : List Issue) (after : Seen) → Took seen taken after → Grows seen after
Grows-of_Took seen taken after took k h =
    rw took.adds (ground (arith, includes-append k seen (trimmed_keys taken)))

-- The key is blank or in the set.
abbrev pub IsIn : Seen → Option Issue → Type 0
IsIn seen issue = non_empty (key_or_blank issue) ≡ true → includes (key_or_blank issue) seen ≡ true

abbrev Covers : {A B : Type 0} → (A → Option Issue) → Taking A B → Type 0
Covers top take = (a : _) (seen : Seen) → IsIn (take a seen).1 (top a)

abbrev itself : Option Issue → Option Issue
itself issue = issue

take_issue_once-Covers : Covers itself take_issue_once
unfolding take_issue_once
take_issue_once-Covers none seen = λ h. absurd (ground arith)
take_issue_once-Covers (some i) seen = ground (
  arith,
  includes-append (trimmed i.key) seen (trimmed i.key ∷ []),
  text_beq_iff (trimmed i.key) (trimmed i.key),
)

epic_of-Grows : (node : RawEpic) (first : Option _ × Seen) → Grows first.1 (epic_of node first).1
epic_of-Grows node (none, seen) = λ k h. h
epic_of-Grows node (some i, seen) =
    Grows-of_Took seen _ _ (stories-Took (collection_values node.stories) seen)

initiative_of-Grows :
    (node : RawInitiative) (first : Option _ × Seen) → Grows first.1 (initiative_of node first).1
initiative_of-Grows node (none, seen) = λ k h. h
initiative_of-Grows node (some i, seen) = λ k h.
    let epics = take_each normalize_epic_node (collection_values node.epics) seen in
    Grows-of_Took epics.1 _ _ (stories-Took (collection_values node.loose_stories) epics.1) k (
      Grows-of_Took seen _ _
        (take_each-Took epic_issues normalize_epic_node normalize_epic_node-Takes
          (collection_values node.epics) seen)
        k h)

normalize_epic_node-Covers : Covers (λ n. n.issue) normalize_epic_node
unfolding normalize_epic_node
normalize_epic_node-Covers node seen = λ h.
    epic_of-Grows node (take_issue_once node.issue seen) (key_or_blank node.issue)
      (take_issue_once-Covers node.issue seen h)

normalize_initiative_node-Covers : Covers (λ n. n.issue) normalize_initiative_node
unfolding normalize_initiative_node
normalize_initiative_node-Covers node seen = λ h.
    initiative_of-Grows node (take_issue_once node.issue seen) (key_or_blank node.issue)
      (take_issue_once-Covers node.issue seen h)

module _ {A B : Type 0} (issues : B → List Issue) (take : Taking A B) (takes : Takes issues take)
    (top : A → Option Issue) (covers : Covers top take) where
  take_each-covers :
      (values : List A) (seen : Seen) → All (IsIn (take_each take values seen).1) (map top values)
  unfolding take_each
  take_each-covers [] seen = tt
  take_each-covers (a ∷ values) seen = (
    λ h.
        Grows-of_Took (take a seen).1 _ _ (take_each-Took issues take takes values (take a seen).1)
          (key_or_blank (top a)) (covers a seen h),
    take_each-covers values (take a seen).1,
  )

-- What the payload lists directly: initiatives, root epics and orphan stories.
abbrev pub top_issues : Payload → List (Option Issue)
top_issues p =
    map (λ n. n.issue) (collection_values p.initiatives)
    ++ (map (λ n. n.issue) (collection_values p.root_epics) ++ collection_values p.orphan_stories)

All-grow :
    (s t : Seen)
    → Grows s t
    → (issues : List (Option Issue)) → All (IsIn s) issues
    → All (IsIn t) issues
All-grow s t g issues h = All-map (λ i c n. g (key_or_blank i) (c n)) issues h

map-itself : (values : List (Option Issue)) → map itself values ≡ values
map-itself [] = refl
map-itself (v ∷ values) = ap (λ l. v ∷ l) (map-itself values)

passes-cover : (p : Payload) → All (IsIn (orphans_pass p).1) (top_issues p)
passes-cover p =
    let orphans = stories-Took (collection_values p.orphan_stories) (root_epics_pass p).1 in
    let roots =
      take_each-Took epic_issues normalize_epic_node normalize_epic_node-Takes
        (collection_values p.root_epics) (initiatives_pass p).1 in
    All-append _ _ _
      (All-grow _ _ (λ k h. Grows-of_Took _ _ _ orphans k (Grows-of_Took _ _ _ roots k h)) _
        (take_each-covers initiative_issues normalize_initiative_node
          normalize_initiative_node-Takes (λ n. n.issue) normalize_initiative_node-Covers
          (collection_values p.initiatives) []))
      (All-append _ _ _
        (All-grow _ _ (Grows-of_Took _ _ _ orphans) _ (
          take_each-covers epic_issues normalize_epic_node normalize_epic_node-Takes (λ n. n.issue)
            normalize_epic_node-Covers (collection_values p.root_epics) (initiatives_pass p).1))
        (subst (All (IsIn (orphans_pass p).1)) (map-itself (collection_values p.orphan_stories)) (
          take_each-covers one take_issue_once take_issue_once-Takes itself take_issue_once-Covers
            (collection_values p.orphan_stories) (root_epics_pass p).1)))

-- Of a payload that is neither metadata only nor an empty rollup, every initiative, root epic and
-- orphan story whose key is not blank has its key in the tree.
pub build_rollup_tree-covers :
    (payload : Payload)
    → payload.metadata_only ≡ false
    → payload.empty_rollup ≡ false
    → All (IsIn (trimmed_keys (tree_issues (build_rollup_tree payload)))) (top_issues payload)
unfolding build_rollup_tree tree_issues
build_rollup_tree-covers p m e =
    rw (m, e) (subst (λ l. All (IsIn l) (top_issues p)) (passes-Took p).adds (passes-cover p))
