-- ===== src/Epm.antt =====
-- EPM projects (frontend/src/epm/epmProjectUtils.mjs): the issues, the payload of a rollup and the
-- tree built of it. A missing, `null` or `undefined` text is `none`; a node that is `null` is one
-- without an issue, since only `node?.issue` and the lists of a node with an issue are read.
pub mod Tree
pub mod Complete
pub mod Status
pub mod Progress
mod Samples
mod Tests
pub mod Search
pub mod Rows
pub mod Settings
pub mod Boards
pub mod Dates
pub mod SubGoals
pub mod Flatten
use jira_execution_planner.Base.{
  ℕ, Bool, true, false, not, Option, none, some, List, [], ◌∷◌, ◌++◌, if◌then◌else◌,
}
use jira_execution_planner.Base.Lists.{includes, non_empty}
use jira_execution_planner.Base.Text.{Text, text_equality, trimmed}
use jira_execution_planner.Base.Dict.{Dict}

-- A JavaScript number, by its bits: nothing but the operations that are parameters reads it.
abbrev pub Double : Type 0
Double = ℕ

-- What the code reads of an issue. `story_points` is what `Number` makes of the field, where that
-- is finite.
pub record Issue : Type 0 where
  pub id : Option Text
  pub key : Option Text
  pub summary : Option Text
  pub status : Option Text
  pub priority : Option Text
  pub issue_type : Option Text
  pub assignee : Option Text
  pub updated : Option Text
  pub story_points : Option Double
  pub team_name : Option Text
  pub team_id : Option Text
  pub parent_key : Option Text
  pub parent_summary : Option Text

-- An array, an object, or neither.
pub data Collection (A : Type 0) : Type 0 where
  array : List A → Collection A
  object : Dict A → Collection A
  neither : Collection A

pub record RawEpic : Type 0 where
  pub issue : Option Issue
  pub stories : Collection (Option Issue)

pub record RawInitiative : Type 0 where
  pub issue : Option Issue
  pub epics : Collection RawEpic
  pub loose_stories : Collection (Option Issue)

pub record Payload : Type 0 where
  pub metadata_only : Bool
  pub empty_rollup : Bool
  pub truncated : Bool
  pub truncated_queries : Option (List Text)
  pub initiatives : Collection RawInitiative
  pub root_epics : Collection RawEpic
  pub orphan_stories : Collection (Option Issue)

pub record EpicNode : Type 0 where
  pub issue : Issue
  pub stories : List Issue

pub record InitiativeNode : Type 0 where
  pub issue : Issue
  pub epics : List EpicNode
  pub loose_stories : List Issue

pub data RollupTree : Type 0 where
  metadata_only : RollupTree
  empty_rollup : RollupTree
  tree :
      (truncated : Bool) (truncated_queries : List Text) (initiatives : List InitiativeNode)
      (root_epics : List EpicNode) (orphan_stories : List Issue)
      → RollupTree

abbrev values_of : {A : Type 0} → Dict A → List A
values_of [] = []
values_of ((k, a) ∷ d) = a ∷ values_of d

abbrev pub collection_values : {A : Type 0} → Collection A → List A
collection_values (array xs) = xs
collection_values (object d) = values_of d
collection_values neither = []

-- The code's shared set `seenKeys`: each function returns it after its own additions.
abbrev pub Seen : Type 0
Seen = List Text

abbrev pub Taking : Type 0 → Type 0 → Type 0
Taking A B = A → Seen → Option B × Seen

unfoldable pub take_issue_once : Taking (Option Issue) Issue
take_issue_once none seen = (none, seen)
take_issue_once (some issue) seen =
    let key = trimmed issue.key in
    if not (non_empty key)
    then (none, seen)
    else if includes key seen
    then (none, seen)
    else (some issue, seen ++ key ∷ [])

abbrev pub keep {ℓ} : {A : Type ℓ} → Option A → List A → List A
keep none xs = xs
keep (some x) xs = x ∷ xs

-- `values.map(value => take(value, seenKeys)).filter(Boolean)`
unfoldable pub take_each : {A B : Type 0} → Taking A B → List A → Seen → List B × Seen
take_each take [] seen = ([], seen)
take_each take (a ∷ values) seen =
    let first = take a seen in
    let others = take_each take values first.1 in (keep first.0 others.0, others.1)

abbrev pub epic_of : RawEpic → Option Issue × Seen → Option EpicNode × Seen
epic_of node (none, seen) = (none, seen)
epic_of node (some issue, seen) =
    let stories = take_each take_issue_once (collection_values node.stories) seen in
    (some (record { issue = issue; stories = stories.0 }), stories.1)

unfoldable pub normalize_epic_node : Taking RawEpic EpicNode
unfolding take_issue_once take_each
normalize_epic_node node seen = epic_of node (take_issue_once node.issue seen)

abbrev pub initiative_of : RawInitiative → Option Issue × Seen → Option InitiativeNode × Seen
initiative_of node (none, seen) = (none, seen)
initiative_of node (some issue, seen) =
    let epics = take_each normalize_epic_node (collection_values node.epics) seen in
    let loose = take_each take_issue_once (collection_values node.loose_stories) epics.1 in
    (some (record { issue = issue; epics = epics.0; loose_stories = loose.0 }), loose.1)

unfoldable pub normalize_initiative_node : Taking RawInitiative InitiativeNode
unfolding normalize_epic_node
normalize_initiative_node node seen = initiative_of node (take_issue_once node.issue seen)

abbrev pub list_or_empty {ℓ} : {A : Type ℓ} → Option (List A) → List A
list_or_empty none = []
list_or_empty (some xs) = xs

unfoldable pub build_rollup_tree : Payload → RollupTree
unfolding normalize_initiative_node
build_rollup_tree payload =
    let initiatives =
      take_each normalize_initiative_node (collection_values payload.initiatives) [] in
    let root_epics =
      take_each normalize_epic_node (collection_values payload.root_epics) initiatives.1 in
    let orphans =
      take_each take_issue_once (collection_values payload.orphan_stories) root_epics.1 in
    if payload.metadata_only
    then metadata_only
    else if payload.empty_rollup
    then empty_rollup
    else tree payload.truncated (list_or_empty payload.truncated_queries) initiatives.0 root_epics.0
        orphans.0

-- What the code reads of a project.
pub record Project : Type 0 where
  pub id : Option Text
  pub name : Option Text
  pub label : Option Text
  pub display_name : Option Text
  pub home_project_id : Option Text
  pub state_value : Option Text
  pub state_label : Option Text
  pub tab_bucket : Option Text
  pub recently_completed : Bool
  pub latest_update_date : Option Text
  pub latest_update_snippet : Option Text
  pub latest_update_html : Option Text
  pub latest_update_author : Option Text
  pub latest_update_url : Option Text

pub record Board : Type 0 where
  pub project : Project
  pub tree : RollupTree
