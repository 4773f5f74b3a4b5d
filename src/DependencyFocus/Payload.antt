-- ===== src/DependencyFocus/Payload.antt =====
-- The keys of a focus payload.
use jira_execution_planner.Base.{
  ◌≡◌, refl, sym, ◌∙◌, ap, subst, Bool, true, false, ◌&&◌, ◌||◌, not, Option, none, some, List, [],
  ◌∷◌, ◌++◌, map, arith, Bool-cases, inl, inr, if_cases, if◌then◌else◌,
}
use jira_execution_planner.Base.Lists.{
  any, filter, includes, unique, non_empty, Distinct, unique-Distinct, includes-unique,
  includes-filter,
}
use jira_execution_planner.Base.Text.{Text, text, text_beq, text_equality, text_beq_iff, or_empty}
use jira_execution_planner.Base.Dict.{Dict, lookup, is_there}
use jira_execution_planner.DependencyFocus.{
  DependencyEntry, get_block_other_key, bucket_of, is_blocked_by, is_blocks,
  build_block_link_buckets, build_dependency_keys, build_block_keys, build_focus_keys,
  build_dependency_focus_payload, FocusPayload, entries_of, of_category, is_key,
  unique_dependency_entries, unique_entries_from, printed,
}

-- The field holds the key.
abbrev pub holds : Option Text → Text → Bool
holds field k = non_empty (or_empty field) && text_beq (or_empty field) k

-- An entry of the category that has a key
abbrev pub has_category : Text → DependencyEntry → Bool
has_category category e = non_empty (or_empty e.key) && is_key e.category category

module _ (task : Text) where
  -- `k` is the issue at the other end: the key of the entry, unless that is the task itself, when
  -- it is what the task blocks, or else what blocks the task.
  abbrev pub other_end : DependencyEntry → Text → Bool
  other_end e k =
      not (is_key e.key task) && holds e.key k
      || is_key e.key task && is_key e.prereq_key task && holds e.dependent_key k
      || is_key e.key task && not (is_key e.prereq_key task) && holds e.prereq_key k

  -- The task waits in the entry: it is the dependent, or the direction says so where it is
  -- neither the dependent nor the prerequisite.
  abbrev pub waits : DependencyEntry → Bool
  waits e =
      is_key e.dependent_key task
      || not (is_key e.prereq_key task) && is_key e.direction (text "inward")

  -- The task holds up the other issue: it is the prerequisite and not the dependent, or the
  -- direction says so where it is neither.
  abbrev pub holds_up : DependencyEntry → Bool
  holds_up e =
      not (is_key e.dependent_key task)
      && (is_key e.prereq_key task || is_key e.direction (text "outward"))

  -- An entry brings `k` into focus for an action: as what blocks the task, what the task blocks,
  -- what depends on it (the inward dependencies), or what it depends on.
  abbrev pub brings : Text → Text → DependencyEntry → Bool
  brings action k e =
      if text_beq action (text "blocked-by")
      then has_category (text "block") e && waits e && other_end e k
      else if text_beq action (text "blocks")
      then has_category (text "block") e && holds_up e && other_end e k
      else has_category (text "dependency") e
        && is_key e.direction
            (if text_beq action (text "dependents") then text "inward" else text "outward")
        && is_key e.key k

abbrev pub on_blocks : Text → Bool
on_blocks action = text_beq action (text "blocked-by") || text_beq action (text "blocks")

includes-chosen :
    (k : Text) (f : DependencyEntry → Text) (p c : DependencyEntry → Bool)
    (entries : List DependencyEntry)
    → includes k (map f (filter p (filter c entries)))
      ≡ any (λ e. c e && p e && text_beq (f e) k) entries
includes-chosen k f p c [] = refl
includes-chosen k f p c (e ∷ entries) = ground (arith, includes-chosen k f p c entries)

any-cong :
    (p q : DependencyEntry → Bool) (entries : List DependencyEntry)
    → ((e : DependencyEntry) → p e ≡ q e)
    → any p entries ≡ any q entries
any-cong p q [] h = refl
any-cong p q (e ∷ entries) h = rw (h e, any-cong p q entries h) refl

one_direction : (s : Text) → (text_beq s (text "inward") && text_beq s (text "outward")) ≡ false
unfolding text_beq
one_direction [] = refl
one_direction (c ∷ s) = ground arith

one_action : (s : Text) → (text_beq s (text "blocked-by") && text_beq s (text "blocks")) ≡ false
unfolding text_beq
one_action s = elim (Bool-cases (text_beq s (text "blocked-by"))) [
  | inl h ↦
      subst (λ t. (text_beq t (text "blocked-by") && text_beq t (text "blocks")) ≡ false)
        (sym ((text_beq_iff s (text "blocked-by")).0 h)) refl
  | inr h ↦ rw h refl
]

module _ (task_key : Text) (filled : non_empty task_key ≡ true) (k : Text)
    (e : DependencyEntry) where
  blocked_by-eq :
      (has_category (text "block") e
        && is_blocked_by (bucket_of e task_key)
        && text_beq (get_block_other_key e task_key) k)
      ≡ (has_category (text "block") e && waits task_key e && other_end task_key e k)
  unfolding bucket_of get_block_other_key
  blocked_by-eq = ground (arith, filled)

  blocks-eq :
      (has_category (text "block") e
        && is_blocks (bucket_of e task_key)
        && text_beq (get_block_other_key e task_key) k)
      ≡ (has_category (text "block") e && holds_up task_key e && other_end task_key e k)
  unfolding bucket_of get_block_other_key
  blocks-eq = ground (arith, filled, one_direction (or_empty e.direction))

any-unique_entries_from :
    (p : DependencyEntry → Bool) (seen : List Text) (entries : List DependencyEntry)
    → (any p (unique_entries_from seen entries) && not (any p entries)) ≡ false
unfolding unique_entries_from
any-unique_entries_from p seen [] = refl
any-unique_entries_from p seen (e ∷ entries) = ground (
  arith,
  any-unique_entries_from p seen entries,
  any-unique_entries_from p ((printed e.key ++ (text "-" ++ printed e.direction)) ∷ seen) entries,
)

includes-directed :
    (k direction : Text) (entries : List DependencyEntry)
    → includes k (
        filter non_empty
          (map (λ e. or_empty e.key) (filter (λ e. is_key e.direction direction) entries)))
      ≡ (non_empty k && any (λ e. is_key e.direction direction && is_key e.key k) entries)
includes-directed k direction [] = ground arith
includes-directed k direction (e ∷ entries) = elim (Bool-cases (is_key e.key k)) [
  | inl h ↦
      let same : non_empty (or_empty e.key) ≡ non_empty k =
        ap non_empty ((text_beq_iff (or_empty e.key) k).0 h) in
      ground (arith, includes-directed k direction entries, same, h)
  | inr h ↦ ground (arith, includes-directed k direction entries, h)
]

any-dependency :
    (k direction : Text) (entries : List DependencyEntry)
    → any
        (λ e. is_key e.direction direction && is_key e.key k)
        (of_category (text "dependency") entries)
      ≡ any
          (λ e.
            has_category (text "dependency") e && is_key e.direction direction && is_key e.key k)
          entries
any-dependency k direction [] = refl
any-dependency k direction (e ∷ entries) = ground (arith, any-dependency k direction entries)

module _ (dependency_data : Dict (List DependencyEntry)) (task_key : Text)
    (filled : non_empty task_key ≡ true) (k : Text) where
  abbrev entries : List DependencyEntry
  entries = entries_of dependency_data task_key

  blocked_by_keys :
      (action : Text)
      → text_beq action (text "blocked-by") ≡ true
      → includes k (build_focus_keys dependency_data task_key action)
        ≡ any (brings task_key action k) entries
  unfolding build_focus_keys build_block_keys build_block_link_buckets
  blocked_by_keys action h =
      let other : text_beq action (text "blocks") ≡ false = ground (arith, one_action action, h) in
      rw (h, other, filled)
        (includes-unique k (
            map (λ e. get_block_other_key e task_key)
              (filter (λ e. is_blocked_by (bucket_of e task_key))
                (of_category (text "block") entries)))
          ∙ includes-chosen k (λ e. get_block_other_key e task_key)
              (λ e. is_blocked_by (bucket_of e task_key)) (has_category (text "block")) entries
          ∙ any-cong _ (brings task_key action k) entries
              (λ e. blocked_by-eq task_key filled k e ∙ ground (arith, h)))

  blocks_keys :
      (action : Text)
      → text_beq action (text "blocked-by") ≡ false
      → text_beq action (text "blocks") ≡ true
      → includes k (build_focus_keys dependency_data task_key action)
        ≡ any (brings task_key action k) entries
  unfolding build_focus_keys build_block_keys build_block_link_buckets
  blocks_keys action other h =
      rw (h, other, filled)
        (includes-unique k (
            map (λ e. get_block_other_key e task_key)
              (filter (λ e. is_blocks (bucket_of e task_key)) (of_category (text "block") entries)))
          ∙ includes-chosen k (λ e. get_block_other_key e task_key)
              (λ e. is_blocks (bucket_of e task_key)) (has_category (text "block")) entries
          ∙ any-cong _ (brings task_key action k) entries
              (λ e. blocks-eq task_key filled k e ∙ ground (arith, h, other)))

  dependency_keys :
      (action : Text)
      → text_beq action (text "blocked-by") ≡ false
      → text_beq action (text "blocks") ≡ false
      → (includes k (build_focus_keys dependency_data task_key action)
          && not (any (brings task_key action k) entries))
        ≡ false
  unfolding build_focus_keys build_dependency_keys
  dependency_keys action h other =
      let direction =
        (if text_beq action (text "dependents") then text "inward" else text "outward") in
      let found = of_category (text "dependency") entries in
      let kept =
        any-unique_entries_from (λ e. is_key e.direction direction && is_key e.key k) [] found in
      let here = includes-directed k direction (unique_dependency_entries found) in
      let chosen = any-dependency k direction entries in
      rw (h, other, filled) (ground (arith, kept, here, chosen))

-- What holds of a payload: which keys are in focus, and what it says of them.
pub record IsFocus {ℓ} {I : Type ℓ} (dependency_data : Dict (List DependencyEntry))
    (issue_by_key : Dict I) (p : FocusPayload) : Type 0 where
  pub brought :
      (k : Text)
      → (includes k p.dependency_keys
          && not (any (brings p.task_key p.action k) (entries_of dependency_data p.task_key)))
        ≡ false
  pub all_blocks :
      (k : Text)
      → (on_blocks p.action
          && any (brings p.task_key p.action k) (entries_of dependency_data p.task_key)
          && not (includes k p.dependency_keys))
        ≡ false
  pub related :
      (k : Text)
      → includes k p.related_keys ≡ (text_beq p.task_key k || includes k p.dependency_keys)
  pub once : Distinct p.related_keys
  pub missing :
      (k : Text)
      → includes k p.missing_keys
        ≡ (not (is_there (lookup k issue_by_key)) && includes k p.dependency_keys)

focus_keys-brought :
    (dependency_data : Dict (List DependencyEntry)) (task_key action : Text)
    → non_empty task_key ≡ true
    → (k : Text)
    → ((includes k (build_focus_keys dependency_data task_key action)
          && not (any (brings task_key action k) (entries_of dependency_data task_key)))
        ≡ false)
      × ((on_blocks action
            && any (brings task_key action k) (entries_of dependency_data task_key)
            && not (includes k (build_focus_keys dependency_data task_key action)))
          ≡ false)
focus_keys-brought dependency_data task_key action filled k =
    elim (Bool-cases (text_beq action (text "blocked-by"))) [
      | inl h ↦
          let same = blocked_by_keys dependency_data task_key filled k action h in
          (ground (arith, same), ground (arith, same))
      | inr not_first ↦ elim (Bool-cases (text_beq action (text "blocks"))) [
        | inl h ↦
            let same = blocks_keys dependency_data task_key filled k action not_first h in
            (ground (arith, same), ground (arith, same))
        | inr h ↦ (
          dependency_keys dependency_data task_key filled k action not_first h,
          ground (arith, not_first, h),
        )
      ]
    ]

abbrev payload_of {ℓ} : {I : Type ℓ} → Text → Text → List Text → Dict I → FocusPayload
payload_of task_key action keys issue_by_key = record {
  task_key = task_key;
  action = action;
  related_keys = unique (task_key ∷ keys);
  dependency_keys = keys;
  missing_keys = filter (λ key. not (is_there (lookup key issue_by_key))) keys;
}

-- Each key in focus is brought there by an entry of the issue: for `blocked-by` and `blocks`, the
-- other end of a block entry in which the issue waits, or holds the other up; for the other
-- actions, the key of an entry of the asked direction. For the two block actions the keys in focus
-- are all such keys. The payload relates the issue itself and the keys in focus, each once, and
-- those missing are exactly those in focus that no loaded issue has.
pub payload-IsFocus {ℓ} :
    {I : Type ℓ} (task_key action : Text) (dependency_data : Dict (List DependencyEntry))
    (issue_by_key : Dict I) (p : FocusPayload)
    → build_dependency_focus_payload task_key action dependency_data issue_by_key ≡ some p
    → IsFocus dependency_data issue_by_key p
unfolding build_dependency_focus_payload
payload-IsFocus {I = I} task_key action dependency_data issue_by_key p =
    if_cases {A = Option FocusPayload} (λ o. o ≡ some p → IsFocus dependency_data issue_by_key p)
      (non_empty task_key && non_empty action)
      (λ filled h.
        let task_filled : non_empty task_key ≡ true = ground (arith, filled) in
        subst (IsFocus dependency_data issue_by_key)
          (ap (λ o. elim o [ none ↦ payload_of task_key action keys issue_by_key | some q ↦ q ]) h)
          (record {
            brought = λ k. (focus_keys-brought dependency_data task_key action task_filled k).0;
            all_blocks = λ k. (focus_keys-brought dependency_data task_key action task_filled k).1;
            related = λ k. includes-unique k (task_key ∷ keys);
            once = unique-Distinct (task_key ∷ keys);
            missing = λ k. includes-filter (λ key. not (is_there (lookup key issue_by_key))) k keys;
          }))
      (λ _ h. absurd cc)
  where
    keys : List Text
    keys = build_focus_keys dependency_data task_key action
