-- ===== src/PlanningStats.antt =====
-- frontend/src/capacityClassification.mjs and frontend/src/eng/planningSelectionStats.js: the
-- classes of capacity, and the story points per team and project.
-- Story points are floating point: `N` with its zero and addition is a parameter, of which no law
-- is used. `points` is what `parseFloat` reads from the field, `none` where that is NaN; a field
-- that is missing reads as 0.
pub mod Totals
mod Tests
use jira_execution_planner.Base.{
  ℕ, Bool, true, false, ◌&&◌, ◌||◌, not, Option, none, some, List, [], ◌∷◌, map, nat_beq,
  if◌then◌else◌,
}
use jira_execution_planner.Base.Lists.{filter, includes, non_empty}
use jira_execution_planner.Base.Text.{
  Text, text, text_beq, text_equality, upper, upper_key, or_empty,
}
use jira_execution_planner.Base.Dict.{Dict, lookup, insert}
use jira_execution_planner.Planning.Teams.{or_text}

pub record CapacityIssue (N : Type 0) : Type 0 where
  pub key : Option Text
  -- `issue.projectKey`
  pub own_project_key : Option Text
  pub epic_key : Option Text
  pub parent_key : Option Text
  pub project_key : Option Text
  pub points : Option N

pub data ProjectType : Type 0 where
  product tech : ProjectType

pub data CapacityType : Type 0 where
  ad_hoc_capacity product_capacity tech_capacity : CapacityType

pub data ProductSubtype : Type 0 where
  ad_hoc standard : ProductSubtype

pub record CapacityClass : Type 0 where
  pub project_type : ProjectType
  pub capacity_type : CapacityType
  pub product_subtype : Option ProductSubtype

abbrev pub is_tech : ProjectType → Bool
is_tech product = false
is_tech tech = true

-- `s.split('-')[0]`
unfoldable pub before_dash : Text → Text
before_dash [] = []
before_dash (c ∷ s) = let rest = before_dash s in if nat_beq c 45 then [] else c ∷ rest

-- A set that is not there is empty.
abbrev pub members : Option (List Text) → List Text
members none = []
members (some keys) = keys

module _ {N : Type 0} where
  unfoldable pub capacity_epic_key : CapacityIssue N → Text
  capacity_epic_key issue = upper_key (
      some (
        or_text (or_empty issue.epic_key)
          (or_text (or_empty issue.parent_key) (or_empty issue.key))))

  unfoldable pub capacity_project_key : CapacityIssue N → Text
  capacity_project_key issue = upper_key (
      some (
        or_text (or_empty issue.project_key)
          (or_text (or_empty issue.own_project_key) (before_dash (or_empty issue.key)))))

  -- The sets are `techProjectKeys` and `adHocEpicSet`.
  unfoldable pub classify_capacity_issue :
      Option (List Text) → Option (List Text) → CapacityIssue N → CapacityClass
  classify_capacity_issue tech_project_keys ad_hoc_epics issue =
      let epic_key = capacity_epic_key issue in
      let project_key = capacity_project_key issue in
      if non_empty epic_key && includes epic_key (members ad_hoc_epics)
      then record {
        project_type = product;
        capacity_type = ad_hoc_capacity;
        product_subtype = some ad_hoc;
      }
      else if non_empty project_key && includes project_key (members tech_project_keys)
      then record { project_type = tech; capacity_type = tech_capacity; product_subtype = none }
      else record {
        project_type = product;
        capacity_type = product_capacity;
        product_subtype = some standard;
      }

  -- `normalizeEpicKey(task.fields?.epicKey || 'NO_EPIC')`
  abbrev pub excluded_key : (Text → Text) → CapacityIssue N → Text
  excluded_key normalize_epic_key task =
      normalize_epic_key (or_text (or_empty task.epic_key) (text "NO_EPIC"))

  unfoldable pub build_selected_planning_tasks_list :
      List (CapacityIssue N) → List Text → (Text → Text) → List (CapacityIssue N)
  build_selected_planning_tasks_list tasks excluded_epics normalize_epic_key =
      filter (λ task. not (includes (excluded_key normalize_epic_key task) excluded_epics)) tasks

-- `tasks.reduce(...)` into an object: each task changes the entry under its key.
unfoldable pub reduce_by {ℓ κ} :
    {T : Type ℓ} {V : Type κ} → (T → Text) → (T → Option V → V) → List T → Dict V → Dict V
reduce_by key grow [] acc = acc
reduce_by key grow (task ∷ tasks) acc =
    reduce_by key grow tasks (insert (key task) (grow task (lookup (key task) acc)) acc)

pub record TeamRef : Type 0 where
  pub id : Text
  pub name : Text

pub record TeamPoints (N : Type 0) : Type 0 where
  pub name : Text
  pub story_points : N

pub record ProjectPoints (N : Type 0) : Type 0 where
  pub product_points : N
  pub tech_points : N

module _ {N : Type 0} (zero_points : N) (plus : N → N → N) where
  unfoldable pub planning_story_points : CapacityIssue N → N
  planning_story_points task = elim task.points [ none ↦ zero_points | some points ↦ points ]

  abbrev pub sum_from : N → List (CapacityIssue N) → N
  sum_from sum [] = sum
  sum_from sum (task ∷ tasks) = sum_from (plus sum (planning_story_points task)) tasks

  unfoldable pub sum_planning_story_points : List (CapacityIssue N) → N
  sum_planning_story_points tasks = sum_from zero_points tasks

  abbrev pub or_zero : Option N → N
  or_zero none = zero_points
  or_zero (some points) = points

  abbrev pub grow_team :
      (CapacityIssue N → TeamRef) → CapacityIssue N → Option (TeamPoints N) → TeamPoints N
  grow_team get_team_info task none = record {
    name = (get_team_info task).name;
    story_points = plus zero_points (planning_story_points task);
  }
  grow_team get_team_info task (some team) = record team {
    story_points = plus team.story_points (planning_story_points task);
  }

  unfoldable pub build_selected_team_stats :
      List (CapacityIssue N) → (CapacityIssue N → TeamRef) → Dict (TeamPoints N)
  build_selected_team_stats tasks get_team_info =
      reduce_by (λ task. (get_team_info task).id) (grow_team get_team_info) tasks []

  abbrev pub grow_sum : CapacityIssue N → Option N → N
  grow_sum task sum = plus (or_zero sum) (planning_story_points task)

  abbrev pub bucket_name : Bool → Text
  bucket_name in_tech = if in_tech then text "TECH" else text "PRODUCT"

  unfoldable pub build_selected_project_stats :
      List (CapacityIssue N) → Option (List Text) → Option (List Text) → Dict N
  build_selected_project_stats tasks tech_project_keys ad_hoc_epics =
      reduce_by
        (λ task.
          bucket_name
            (is_tech (classify_capacity_issue tech_project_keys ad_hoc_epics task).project_type))
        grow_sum tasks []

  abbrev pub or_no_points : Option (ProjectPoints N) → ProjectPoints N
  or_no_points none = record { product_points = zero_points; tech_points = zero_points }
  or_no_points (some points) = points

  abbrev pub add_points : Bool → N → ProjectPoints N → ProjectPoints N
  add_points true points team = record team { tech_points = plus team.tech_points points }
  add_points false points team = record team { product_points = plus team.product_points points }

  abbrev pub grow_project :
      (CapacityIssue N → Bool) → CapacityIssue N → Option (ProjectPoints N) → ProjectPoints N
  grow_project in_tech task team =
      add_points (in_tech task) (planning_story_points task) (or_no_points team)

  unfoldable pub build_selected_team_project_stats :
      List (CapacityIssue N)
      → (CapacityIssue N → TeamRef)
      → Option (List Text)
      → Option (List Text)
      → Dict (ProjectPoints N)
  build_selected_team_project_stats tasks get_team_info tech_project_keys ad_hoc_epics =
      reduce_by (λ task. (get_team_info task).id)
        (grow_project (λ task.
          is_tech (classify_capacity_issue tech_project_keys ad_hoc_epics task).project_type))
        tasks []

  -- The project key here is not trimmed, and ad hoc epics play no part.
  abbrev pub excluded_bucket : List Text → CapacityIssue N → Text
  excluded_bucket tech_project_keys task = bucket_name (
      includes (upper (or_text (or_empty task.project_key) (before_dash (or_empty task.key))))
        tech_project_keys)

  unfoldable pub build_excluded_project_stats :
      List (CapacityIssue N) → List Text → List Text → (Text → Text) → Dict N
  build_excluded_project_stats tasks excluded_epics tech_project_keys normalize_epic_key =
      reduce_by (excluded_bucket tech_project_keys) grow_sum
        (filter (λ task. includes (excluded_key normalize_epic_key task) excluded_epics) tasks) []
