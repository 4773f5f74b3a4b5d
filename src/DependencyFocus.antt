-- ===== src/DependencyFocus.antt =====
-- frontend/src/issues/dependencyFocusUtils.js: the issues that a click on a dependency of an
-- issue brings into focus. Fields of an entry may be missing; an empty text counts as missing.
pub mod Payload
mod Tests
use jira_execution_planner.Base.{
  Bool, true, false, ◌&&◌, not, Option, none, some, List, [], ◌∷◌, ◌++◌, map, if◌then◌else◌,
}
use jira_execution_planner.Base.Lists.{filter, includes, unique, non_empty}
use jira_execution_planner.Base.Text.{Text, text, text_beq, text_equality, or_empty}
use jira_execution_planner.Base.Dict.{Dict, lookup, is_there}

pub record DependencyEntry : Type 0 where
  pub key : Option Text
  pub prereq_key : Option Text
  pub dependent_key : Option Text
  pub category : Option Text
  pub direction : Option Text

-- `field === key` for a key that is not empty
abbrev pub is_key : Option Text → Text → Bool
is_key field key = text_beq (or_empty field) key

-- `getBlockOtherKey`, the empty text for what is falsy
unfoldable pub get_block_other_key : DependencyEntry → Text → Text
get_block_other_key dep task_key =
    if not (non_empty (or_empty dep.key) && non_empty task_key)
    then []
    else if not (is_key dep.key task_key)
    then or_empty dep.key
    else if is_key dep.prereq_key task_key
    then or_empty dep.dependent_key
    else or_empty dep.prereq_key

-- Where `buildBlockLinkBuckets` puts an entry.
pub data Bucket : Type 0 where
  in_blocked_by in_blocks in_neither : Bucket

unfoldable pub bucket_of : DependencyEntry → Text → Bucket
bucket_of dep task_key =
    if not (non_empty (get_block_other_key dep task_key))
    then in_neither
    else if is_key dep.dependent_key task_key
    then in_blocked_by
    else if is_key dep.prereq_key task_key
    then in_blocks
    else if is_key dep.direction (text "inward")
    then in_blocked_by
    else if is_key dep.direction (text "outward")
    then in_blocks
    else in_neither

abbrev pub is_blocked_by : Bucket → Bool
is_blocked_by in_blocked_by = true
is_blocked_by in_blocks = false
is_blocked_by in_neither = false

abbrev pub is_blocks : Bucket → Bool
is_blocks in_blocked_by = false
is_blocks in_blocks = true
is_blocks in_neither = false

-- `buildBlockLinkBuckets`: the arrays `blockedBy` and `blocks`
unfoldable pub build_block_link_buckets : List DependencyEntry → Text → List Text × List Text
build_block_link_buckets entries task_key = (
  unique (
      map (λ dep. get_block_other_key dep task_key)
        (filter (λ dep. is_blocked_by (bucket_of dep task_key)) entries)),
  unique (
      map (λ dep. get_block_other_key dep task_key)
        (filter (λ dep. is_blocks (bucket_of dep task_key)) entries)),
)

-- `${field}`
abbrev pub printed : Option Text → Text
printed none = text "undefined"
printed (some s) = s

unfoldable pub unique_entries_from : List Text → List DependencyEntry → List DependencyEntry
unique_entries_from seen [] = []
unique_entries_from seen (dep ∷ entries) =
    let key = printed dep.key ++ (text "-" ++ printed dep.direction) in
    let repeated = unique_entries_from seen entries in
    let kept = dep ∷ unique_entries_from (key ∷ seen) entries in
    if includes key seen then repeated else kept

abbrev pub unique_dependency_entries : List DependencyEntry → List DependencyEntry
unique_dependency_entries entries = unique_entries_from [] entries

-- `(dependencyData || {})[taskKey] || []`
abbrev pub entries_of : Dict (List DependencyEntry) → Text → List DependencyEntry
entries_of dependency_data task_key = elim (lookup task_key dependency_data) [
  | none ↦ []
  | some entries ↦ entries
]

abbrev pub of_category : Text → List DependencyEntry → List DependencyEntry
of_category category entries =
    filter (λ dep. non_empty (or_empty dep.key) && is_key dep.category category) entries

unfoldable pub build_dependency_keys : Dict (List DependencyEntry) → Text → Text → List Text
build_dependency_keys dependency_data task_key action =
    let direction =
      (if text_beq action (text "dependents") then text "inward" else text "outward") in
    if non_empty task_key
    then filter non_empty (
        map (λ dep. or_empty dep.key)
          (filter (λ dep. is_key dep.direction direction)
            (unique_dependency_entries
              (of_category (text "dependency") (entries_of dependency_data task_key)))))
    else []

unfoldable pub build_block_keys : Dict (List DependencyEntry) → Text → Text → List Text
build_block_keys dependency_data task_key action =
    let (blocked_by, blocks) =
      build_block_link_buckets (of_category (text "block") (entries_of dependency_data task_key))
        task_key in
    if non_empty task_key
    then (if text_beq action (text "blocks") then blocks else blocked_by)
    else []

unfoldable pub build_focus_keys : Dict (List DependencyEntry) → Text → Text → List Text
build_focus_keys dependency_data task_key action =
    if text_beq action (text "blocked-by")
    then build_block_keys dependency_data task_key action
    else if text_beq action (text "blocks")
    then build_block_keys dependency_data task_key action
    else build_dependency_keys dependency_data task_key action

pub record FocusPayload : Type 0 where
  pub task_key : Text
  pub action : Text
  pub related_keys : List Text
  pub dependency_keys : List Text
  pub missing_keys : List Text

unfoldable pub build_dependency_focus_payload {ℓ} :
    {I : Type ℓ} → Text → Text → Dict (List DependencyEntry) → Dict I → Option FocusPayload
build_dependency_focus_payload task_key action dependency_data issue_by_key =
    let keys = build_focus_keys dependency_data task_key action in
    if non_empty task_key && non_empty action
    then some (record {
      task_key = task_key;
      action = action;
      related_keys = unique (task_key ∷ keys);
      dependency_keys = keys;
      missing_keys = filter (λ key. not (is_there (lookup key issue_by_key))) keys;
    })
    else none
