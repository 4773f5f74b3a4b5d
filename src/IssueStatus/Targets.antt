-- ===== src/IssueStatus/Targets.antt =====
-- Which target of a batch stands for an issue that several selections name.
use jira_execution_planner.Base.{
  ◌≡◌, refl, ap, ◌∙◌, sym, subst, Bool, ◌&&◌, Option, none, some, List, [], ◌∷◌, map, arith,
  if◌then◌else◌, if_cases,
}
use jira_execution_planner.Base.Lists.{find, non_empty, All, Distinct}
use jira_execution_planner.Base.Text.{Text, text, text_beq, text_equality}
use jira_execution_planner.Base.Dict.{Dict, lookup, insert, keys, lookup-insert, insert-Distinct}
use jira_execution_planner.IssueStatus.{
  Issue, StatusTarget, StatusEpicGroup, normalize_status_target_key, enter_targets, enter_lists,
  values, dedupe_status_targets_by_precedence, build_eng_status_targets,
  build_catch_up_status_targets, present, resolve_epic_status_targets,
  resolve_subtask_status_targets,
}

abbrev pub key_of : StatusTarget → Text
key_of target = normalize_status_target_key target.key

abbrev has_key : Text → StatusTarget → Bool
has_key key target = text_beq (key_of target) key

abbrev pub or_else : Option StatusTarget → Option StatusTarget → Option StatusTarget
or_else none other = other
or_else (some target) other = some target

-- The last target of the list with a key and this normal key
abbrev pub last_with : Text → List StatusTarget → Option StatusTarget
last_with key [] = none
last_with key (target ∷ targets) =
    or_else (last_with key targets)
      (if non_empty target.key && has_key key target then some target else none)

lookup-enter_targets :
    (key : Text) (targets : List StatusTarget) (by_key : Dict StatusTarget)
    → lookup key (enter_targets targets by_key)
      ≡ or_else (last_with key targets) (lookup key by_key)
unfolding enter_targets
lookup-enter_targets key [] by_key = refl
lookup-enter_targets key (target ∷ targets) by_key = ground (
  arith,
  lookup-enter_targets key targets
      (if non_empty target.key then insert (key_of target) target by_key else by_key),
  lookup-insert (key_of target) key target by_key,
)

-- Each entry stands under the normal key of its target.
abbrev Keyed : Dict StatusTarget → Type 0
Keyed by_key = All (λ entry. key_of entry.1 ≡ entry.0) by_key

insert-Keyed :
    (target : StatusTarget) (by_key : Dict StatusTarget)
    → Keyed by_key
    → Keyed (insert (key_of target) target by_key)
unfolding insert
insert-Keyed target [] h = (refl, tt)
insert-Keyed target ((key, other) ∷ by_key) h =
    if_cases Keyed (text_beq key (key_of target)) (λ _. (refl, h.1))
      (λ _. (h.0, insert-Keyed target by_key h.1))

record IsMap (by_key : Dict StatusTarget) : Type 0 where
  keyed : Keyed by_key
  distinct : Distinct (keys by_key)

enter_targets-IsMap :
    (targets : List StatusTarget) (by_key : Dict StatusTarget)
    → IsMap by_key
    → IsMap (enter_targets targets by_key)
unfolding enter_targets
enter_targets-IsMap [] by_key h = h
enter_targets-IsMap (target ∷ targets) by_key h = enter_targets-IsMap targets _ (
    if_cases IsMap (non_empty target.key)
      (λ _. record {
        keyed = insert-Keyed target by_key h.keyed;
        distinct = insert-Distinct (key_of target) target by_key h.distinct;
      })
      (λ _. h))

enter_lists-IsMap :
    (lists : List (List StatusTarget)) (by_key : Dict StatusTarget)
    → IsMap by_key
    → IsMap (enter_lists lists by_key)
unfolding enter_lists
enter_lists-IsMap [] by_key h = h
enter_lists-IsMap (list ∷ lists) by_key h =
    enter_lists-IsMap lists (enter_targets list by_key) (enter_targets-IsMap list by_key h)

find-values :
    (key : Text) (by_key : Dict StatusTarget)
    → Keyed by_key
    → find (has_key key) (values by_key) ≡ lookup key by_key
unfolding lookup
find-values key [] h = refl
find-values key ((k, target) ∷ by_key) h = rw (h.0, find-values key by_key h.1) refl

keys-values : (by_key : Dict StatusTarget) → Keyed by_key → map key_of (values by_key) ≡ keys by_key
unfolding keys
keys-values [] h = refl
keys-values ((k, target) ∷ by_key) h = rw (h.0, keys-values by_key h.1) refl

empty-IsMap : IsMap []
unfolding keys
empty-IsMap = record { keyed = tt; distinct = tt }

dedupe-Distinct :
    (lists : List (List StatusTarget))
    → Distinct (map key_of (dedupe_status_targets_by_precedence lists))
unfolding dedupe_status_targets_by_precedence
dedupe-Distinct lists =
    let m = enter_lists-IsMap lists [] empty-IsMap in
    subst (λ (ks : List Text). Distinct ks) (sym (keys-values (enter_lists lists []) m.keyed))
      m.distinct

or_else_nil : (a : Option StatusTarget) → or_else a none ≡ a
or_else_nil none = refl
or_else_nil (some t) = refl

find-dedupe :
    (key : Text) (low middle high : List StatusTarget)
    → find (has_key key) (dedupe_status_targets_by_precedence (low ∷ middle ∷ high ∷ []))
      ≡ or_else (last_with key high) (or_else (last_with key middle) (last_with key low))
unfolding dedupe_status_targets_by_precedence enter_lists lookup
find-dedupe key low middle high =
    let one = enter_targets low [] in
    let two = enter_targets middle one in
    find-values key (enter_targets high two)
      (enter_lists-IsMap (low ∷ middle ∷ high ∷ []) [] empty-IsMap).keyed
    ∙ lookup-enter_targets key high two
    ∙ ap (or_else (last_with key high)) (
        lookup-enter_targets key middle one
        ∙ ap (or_else (last_with key middle))
            (lookup-enter_targets key low [] ∙ or_else_nil (last_with key low)))

-- No two targets of a batch have the same key (trimmed, in upper case), and the target of a key is
-- the last selected epic with the key, else the last story, else the last sub-task.
pub build_eng_status_targets-IsMap :
    (tasks : List Issue) (epic_keys subtask_keys : List Text) (groups : List StatusEpicGroup)
    (subtasks : Dict (Option (List Issue))) (key : Text)
    → let targets = build_eng_status_targets tasks epic_keys subtask_keys groups subtasks in
      Distinct (map key_of targets)
      × (find (λ (t : StatusTarget). text_beq (key_of t) key) targets
          ≡ or_else (last_with key (resolve_epic_status_targets epic_keys groups)) (
              or_else
                (last_with key
                  (present (map (λ t. build_catch_up_status_targets t (text "Story")) tasks)))
                (last_with key (resolve_subtask_status_targets subtask_keys subtasks))))
unfolding build_eng_status_targets
build_eng_status_targets-IsMap tasks epic_keys subtask_keys groups subtasks key =
    (dedupe-Distinct _, find-dedupe key _ _ _)
