-- ===== src/EngTasks.antt =====
-- frontend/src/eng/engTaskUtils.js: teams of tasks and epics, filters, and the order of tasks and
-- of epic groups. A comparator's number is modelled by its sign, which is all that `sort` reads.
pub mod Order
pub mod Groups
mod Tests
use Prim.Native.Nat.{compare, Ordering}
use jira_execution_planner.Base.{
  ℕ, zero, suc, Bool, true, false, ◌&&◌, ◌||◌, not, Option, none, some, List, [], ◌∷◌, ◌++◌, map,
  ◌==◌, if◌then◌else◌, ltb, leb, nat_beq,
}
use jira_execution_planner.Base.Lists.{filter, includes, any, non_empty}
use jira_execution_planner.Base.Text.{Text, text, text_beq, text_equality, trim, trimmed, lower}
use jira_execution_planner.Base.Dict.{Dict, lookup, insert}
use jira_execution_planner.Base.Sort.{sort_by}
use jira_execution_planner.Planning.Teams.{or_text}

abbrev pub priority_order : Dict ℕ
priority_order =
    (text "Blocker", 0)
    ∷ (text "Highest", 1)
    ∷ (text "Critical", 2)
    ∷ (text "High", 3)
    ∷ (text "Major", 4)
    ∷ (text "Medium", 5)
    ∷ (text "Minor", 6)
    ∷ (text "Low", 7)
    ∷ (text "Trivial", 8)
    ∷ (text "Lowest", 9)
    ∷ []

-- The object in the field `team` of a task or an epic.
pub record TeamRef : Type 0 where
  pub id : Option Text
  pub team_id : Option Text
  pub key : Option Text
  pub name : Option Text
  pub display_name : Option Text
  pub team_name : Option Text

pub record Task : Type 0 where
  pub team : Option TeamRef
  pub team_id : Option Text
  pub team_name : Option Text
  pub priority : Option Text
  pub epic_key : Option Text

pub record Epic : Type 0 where
  pub team : Option TeamRef
  pub team_id : Option Text
  pub team_name : Option Text
  pub labels : List (Option Text)
  pub status : Option Text
  pub project_track : Option Text

pub record EpicGroup : Type 0 where
  pub epic : Option Epic
  pub tasks : List Task

pub record TeamInfo : Type 0 where
  pub id : Text
  pub name : Text

-- `a || b || … || fallback`
abbrev pub first_filled : List (Option Text) → Text → Text
first_filled [] fallback = fallback
first_filled (none ∷ rest) fallback = first_filled rest fallback
first_filled (some s ∷ rest) fallback = or_text s (first_filled rest fallback)

-- `team?.field`
abbrev pub of_team : Option TeamRef → (TeamRef → Option Text) → Option Text
of_team none field = none
of_team (some team) field = field team

unfoldable pub get_task_team_info : Task → TeamInfo
get_task_team_info task =
    let name =
      first_filled
        (task.team_name
          ∷ of_team task.team (λ t. t.name)
          ∷ of_team task.team (λ t. t.display_name)
          ∷ of_team task.team (λ t. t.team_name)
          ∷ [])
        (text "Unknown Team") in
    record {
      id =
          first_filled
            (task.team_id
              ∷ of_team task.team (λ t. t.id)
              ∷ of_team task.team (λ t. t.team_id)
              ∷ of_team task.team (λ t. t.key)
              ∷ [])
            name;
      name = name;
    }

unfoldable pub get_epic_team_info : Epic → TeamInfo
get_epic_team_info epic =
    let name =
      first_filled
        (epic.team_name
          ∷ of_team epic.team (λ t. t.name)
          ∷ of_team epic.team (λ t. t.display_name)
          ∷ [])
        (text "Unknown Team") in
    record {
      id = first_filled (epic.team_id ∷ of_team epic.team (λ t. t.id) ∷ []) name;
      name = name;
    }

abbrev pub items_of : Option (List Task) → List Task
items_of none = []
items_of (some items) = items

unfoldable pub group_into : Dict (List Task) → List Task → Dict (List Task)
group_into groups [] = groups
group_into groups (task ∷ tasks) =
    let name = (get_task_team_info task).name in
    group_into (insert name (items_of (lookup name groups) ++ task ∷ []) groups) tasks

unfoldable pub group_tasks_by_team : List Task → Dict (List Task)
unfolding group_into
group_tasks_by_team tasks = group_into [] tasks

-- `priorityOrder[name] || 999`: a rank of 0 is falsy.
abbrev pub rank_or_999 : Option ℕ → ℕ
rank_or_999 none = 999
rank_or_999 (some zero) = 999
rank_or_999 (some (suc n)) = suc n

abbrev pub look_up : Option Text → Dict ℕ → Option ℕ
look_up none ranks = none
look_up (some name) ranks = lookup name ranks

unfoldable pub task_rank : Dict ℕ → Task → ℕ
task_rank ranks task = rank_or_999 (look_up task.priority ranks)

unfoldable pub sort_tasks_by_priority : Dict ℕ → List Task → List Task
sort_tasks_by_priority ranks tasks =
    sort_by (λ a b. leb (task_rank ranks a) (task_rank ranks b)) tasks

unfoldable pub filter_tasks_for_team_set : List Task → List Text → List Text → List Task
filter_tasks_for_team_set tasks group_team_ids group_team_set =
    if non_empty group_team_ids
    then filter (λ task. includes (get_task_team_info task).id group_team_set) tasks
    else []

-- `String(label || '').trim().toLowerCase()`
unfoldable pub label_key : Option Text → Text
label_key label = lower (trimmed label)

-- The values of the object `activeGroupTeamLabels` are a list.
unfoldable pub epic_matches_active_group_label : Epic → List (Option Text) → Bool
unfolding label_key
epic_matches_active_group_label epic team_labels =
    let labels = filter non_empty (map label_key epic.labels) in
    if non_empty labels
    then any (λ label. non_empty (label_key label) && includes (label_key label) labels) team_labels
    else false

abbrev pub filled : Option Text → Text
filled none = []
filled (some s) = s

unfoldable pub filter_epics_in_scope_for_team_set :
    List Epic → List Text → List Text → List (Option Text) → List Epic
filter_epics_in_scope_for_team_set epics group_team_ids group_team_set team_labels =
    if non_empty group_team_ids
    then filter
        (λ epic.
          not (non_empty (filled epic.team_id))
          || (includes (filled epic.team_id) group_team_set
              || epic_matches_active_group_label epic team_labels))
        epics
    else []

-- `Boolean` keeps the keys that are there and not empty.
unfoldable pub task_epic_keys : List Task → List Text
task_epic_keys tasks = filter non_empty (map (λ task. filled task.epic_key) tasks)

unfoldable pub filter_epics_by_task_epic_keys {ℓ} : {E : Type ℓ} → Dict E → List Task → Dict E
filter_epics_by_task_epic_keys [] tasks = []
filter_epics_by_task_epic_keys ((key, epic) ∷ epics) tasks =
    let rest = filter_epics_by_task_epic_keys epics tasks in
    if includes key (task_epic_keys tasks) then (key, epic) ∷ rest else rest
