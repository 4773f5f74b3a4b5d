-- ===== src/SprintData/Loads.antt =====
-- `loadProductTasks` and `loadTechTasks` of frontend/src/eng/useEngSprintData.js, and the reset of
-- their marks in frontend/src/dashboard.jsx. A load is cut at its `await`: it starts for the
-- sprint of that moment, and ends whenever its request does.
use jira_execution_planner.Base.{
  ◌≡◌, Bool, true, false, ◌&&◌, Option, none, some, List, [], ◌∷◌, ◌++◌, if◌then◌else◌,
}
use jira_execution_planner.Base.Lists.{non_empty}
use jira_execution_planner.Base.Text.{Text, text_beq, or_empty}
use jira_execution_planner.SprintData.Requests.{Project, product, tech}

-- `current.sprintId === sprintId`, where `none` is `null`
abbrev pub same_sprint : Option Text → Option Text → Bool
same_sprint none none = true
same_sprint none (some t) = false
same_sprint (some s) none = false
same_sprint (some s) (some t) = text_beq s t

abbrev pub same_project : Project → Project → Bool
same_project product product = true
same_project product tech = false
same_project tech product = false
same_project tech tech = true

-- `sprintLoadRef.current`
pub record SprintLoad : Type 0 where
  pub sprint_id : Option Text
  pub product_done : Bool
  pub tech_done : Bool

-- A load that awaits its request, or one that has ended
pub record Load : Type 0 where
  pub kind : Project
  pub sprint : Option Text

-- `T` is a task.
pub record LoadState (T : Type 0) : Type 0 where
  pub selected_sprint : Option Text
  pub sprint_load : SprintLoad
  pub last_loaded : Option Text
  -- also `loadedProductTasks`, which every operation here sets to the same; likewise for tech
  pub product_tasks : List T
  pub tech_tasks : List T
  pub tasks_fetched : Bool
  pub tech_loaded : Bool
  pub product_loading : Bool
  pub tech_loading : Bool
  pub running : List Load
  -- the loads that have ended since the last reset
  pub ended : List Load

unfoldable pub mark : Project → Option Text → SprintLoad → SprintLoad
mark product sprint current = record {
  sprint_id = sprint;
  product_done = true;
  tech_done = if same_sprint current.sprint_id sprint then current.tech_done else false;
}
mark tech sprint current = record {
  sprint_id = sprint;
  product_done = if same_sprint current.sprint_id sprint then current.product_done else false;
  tech_done = true;
}

abbrev pub no_marks : Option Text → SprintLoad
no_marks sprint = record { sprint_id = sprint; product_done = false; tech_done = false }

module _ {T : Type 0} where
  abbrev pub set_tasks : Project → List T → LoadState T → LoadState T
  set_tasks product tasks c = record c {
    product_tasks = tasks;
    tasks_fetched = true;
    product_loading = false;
  }
  set_tasks tech tasks c = record c {
    tech_tasks = tasks;
    tech_loaded = true;
    tasks_fetched = true;
    tech_loading = false;
  }

  -- The end of a load that started for `sprint`
  unfoldable pub end_load : Project → Option Text → List T → LoadState T → LoadState T
  end_load kind sprint tasks c =
      let marks = mark kind sprint c.sprint_load in
      record (set_tasks kind tasks c) {
        sprint_load = marks;
        last_loaded = if marks.product_done && marks.tech_done then sprint else c.last_loaded;
        ended = record { kind = kind; sprint = sprint } ∷ c.ended;
      }

  abbrev pub show_loading : Project → LoadState T → LoadState T
  show_loading product c = record c { product_loading = true }
  show_loading tech c = record c { tech_loading = true }

  -- `has_no_teams`: a group is active and has no teams.
  unfoldable pub start_load : Project → Bool → LoadState T → LoadState T
  start_load kind has_no_teams c =
      if has_no_teams
      then end_load kind c.selected_sprint [] (show_loading kind c)
      else record (show_loading kind c) {
        running = c.running ++ record { kind = kind; sprint = c.selected_sprint } ∷ [];
      }

  -- The reset of the marks after a change of the configuration
  unfoldable pub reset_marks : LoadState T → LoadState T
  reset_marks c = record c {
    sprint_load = no_marks c.selected_sprint;
    last_loaded = none;
    ended = [];
  }

  -- A new sprint, with the effect that clears the tasks unless no sprint is selected
  unfoldable pub select_sprint : Option Text → LoadState T → LoadState T
  select_sprint sprint c =
      if non_empty (or_empty sprint)
      then reset_marks (record c {
        selected_sprint = sprint;
        product_tasks = [];
        tech_tasks = [];
        tasks_fetched = false;
        tech_loaded = false;
      })
      else record c { selected_sprint = sprint }

  abbrev pub first_state : LoadState T
  first_state = record {
    selected_sprint = none;
    sprint_load = no_marks none;
    last_loaded = none;
    product_tasks = [];
    tech_tasks = [];
    tasks_fetched = false;
    tech_loaded = false;
    product_loading = false;
    tech_loading = false;
    running = [];
    ended = [];
  }

  -- The states that can come up, in whatever order the requests are answered
  pub data Reach : LoadState T → Type 0 where
    start : Reach first_state
    selected : (sprint : Option Text) (c : LoadState T) → Reach c → Reach (select_sprint sprint c)
    reconfigured : (c : LoadState T) → Reach c → Reach (reset_marks c)
    started :
        (kind : Project) (has_no_teams : Bool) (c : LoadState T)
        → Reach c
        → Reach (start_load kind has_no_teams c)
    loaded :
        (before after : List Load) (l : Load) (tasks : List T) (c : LoadState T)
        → c.running ≡ before ++ l ∷ after
        → Reach c
        → Reach (end_load l.kind l.sprint tasks (record c { running = before ++ after }))
