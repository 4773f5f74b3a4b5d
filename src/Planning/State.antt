-- ===== src/Planning/State.antt =====
-- frontend/src/planningSelectionState.mjs: the planning state that is stored for each scope.
-- A stored state is a parsed JSON object: a field may be missing, and its lists hold strings.
pub mod Normal
pub mod Persist
pub mod Resolve
mod Tests
use jira_execution_planner.Base.{
  ◌≡◌, Bool, true, false, ◌&&◌, ◌||◌, not, Option, none, some, List, [], ◌∷◌, ◌++◌, map, ◌==◌,
  if◌then◌else◌,
}
use jira_execution_planner.Base.Lists.{filter, includes, unique, non_empty, head_or}
use jira_execution_planner.Base.Text.{Text, text, text_beq, text_equality, trim, trimmed}
use jira_execution_planner.Base.Dict.{Dict, lookup, insert, is_there}
use jira_execution_planner.Base.Sort.{sort}
use jira_execution_planner.Planning.Teams.{
  TeamsValue, many, single, absent, all_id, all_only, or_text,
}

-- PLANNING_SELECTION_MODE_MANUAL and PLANNING_SELECTION_MODE_DEFAULT_ALL
pub data SelectionMode : Type 0 where
  manual default_all : SelectionMode

abbrev pub is_default_all : SelectionMode → Bool
is_default_all manual = false
is_default_all default_all = true

abbrev pub mode_text : SelectionMode → Text
mode_text manual = text "manual"
mode_text default_all = text "default_all"

pub record StoredState : Type 0 where
  pub selected_task_keys : Option (List Text)
  pub selected_teams : TeamsValue
  pub selected_team_id : TeamsValue
  pub selection_mode : Option Text

pub record PlanningState : Type 0 where
  pub selected_task_keys : List Text
  pub selected_teams : List Text
  pub selected_team_id : Text
  pub selection_mode : SelectionMode

-- `normalizeKeyList`: trimmed, without blanks and repetitions.
unfoldable pub normalize_key_list : Option (List Text) → List Text
normalize_key_list none = []
normalize_key_list (some keys) = unique (filter non_empty (map trim keys))

unfoldable pub normalize_team_id : Text → Text
normalize_team_id id = or_text (trim id) all_id

unfoldable pub normalize_team_id_list : TeamsValue → List Text
unfolding normalize_team_id
normalize_team_id_list (many ids) =
    let team_ids = unique (map normalize_team_id ids) in
    if non_empty team_ids then team_ids else all_only
normalize_team_id_list (single id) = normalize_team_id id ∷ []
normalize_team_id_list absent = normalize_team_id [] ∷ []

unfoldable pub normalize_selection_mode : Option Text → SelectionMode
normalize_selection_mode none = manual
normalize_selection_mode (some mode) =
    if text_beq mode (mode_text default_all) then default_all else manual

-- `storedState?.selectedTeams ?? storedState?.selectedTeamId ?? 'all'`
unfoldable pub stored_teams : TeamsValue → TeamsValue → TeamsValue
stored_teams absent absent = single all_id
stored_teams absent (many ids) = many ids
stored_teams absent (single id) = single id
stored_teams (many ids) other = many ids
stored_teams (single id) other = single id

abbrev pub nothing_stored : StoredState
nothing_stored = record {
  selected_task_keys = none;
  selected_teams = absent;
  selected_team_id = absent;
  selection_mode = none;
}

-- `teams.length === 1 ? teams[0] : teams[0] || 'all'`; a missing element is `undefined`.
abbrev pub first_team : List Text → Text
first_team [] = all_id
first_team (id ∷ []) = id
first_team (id ∷ other ∷ ids) = or_text id all_id

-- `normalizePlanningState` and `normalizeStoredScopeState`, which copies its fields
unfoldable pub normalize_planning_state : StoredState → PlanningState
normalize_planning_state stored =
    let teams =
      normalize_team_id_list (stored_teams stored.selected_teams stored.selected_team_id) in
    record {
      selected_task_keys = normalize_key_list stored.selected_task_keys;
      selected_teams = teams;
      selected_team_id = first_team teams;
      selection_mode = normalize_selection_mode stored.selection_mode;
    }

-- A normalised state as the object that is written.
abbrev pub to_stored : PlanningState → StoredState
to_stored state = record {
  selected_task_keys = some state.selected_task_keys;
  selected_teams = many state.selected_teams;
  selected_team_id = single state.selected_team_id;
  selection_mode = some (mode_text state.selection_mode);
}

-- What the storage holds under PLANNING_STORAGE_KEY: nothing, a text that does not parse to an
-- object, the text of an array, or the text of a map from scope keys to states. Scope keys begin
-- with `planning::`, so none is an index of an array or a name of `Object.prototype`.
pub data Raw : Type 0 where
  nothing unreadable array_text : Raw
  scope_map : Dict StoredState → Raw

-- `localStorage`: either method may be missing or may throw, as in a private window.
pub record LocalStorage : Type 0 where
  pub raw : Raw
  pub can_get : Bool
  pub can_set : Bool

-- The object that a text parses to; an array passes the test `typeof parsed === 'object'`.
pub data ScopeMap : Type 0 where
  plain : Dict StoredState → ScopeMap
  array : ScopeMap

-- `stateMap[scopeKey]`
abbrev pub state_of : Text → ScopeMap → Option StoredState
state_of scope_key (plain states) = lookup scope_key states
state_of scope_key array = none

-- `stateMap[scopeKey] = state`, as far as `JSON.stringify` will write it: of an array it writes the
-- elements only.
abbrev pub set_state : Text → StoredState → ScopeMap → ScopeMap
set_state scope_key state (plain states) = plain (insert scope_key state states)
set_state scope_key state array = array

-- `JSON.stringify`
abbrev pub written : ScopeMap → Raw
written (plain states) = scope_map states
written array = array_text

-- `JSON.parse`, and the tests on its result
abbrev pub parsed : Raw → ScopeMap
parsed nothing = plain []
parsed unreadable = plain []
parsed array_text = array
parsed (scope_map states) = plain states

abbrev pub is_array : Raw → Bool
is_array array_text = true
is_array _ = false

unfoldable pub read_planning_scope_map : LocalStorage → ScopeMap
read_planning_scope_map storage = if storage.can_get then parsed storage.raw else plain []

unfoldable pub write_planning_scope_map : LocalStorage → ScopeMap → LocalStorage
write_planning_scope_map storage next_map =
    if storage.can_set then record storage { raw = written next_map } else storage

-- `rawState ? normalizeStoredScopeState(rawState) : null`
abbrev pub normalized : Option StoredState → Option PlanningState
normalized none = none
normalized (some stored) = some (normalize_planning_state stored)

unfoldable pub load_planning_state : LocalStorage → Text → Option PlanningState
load_planning_state storage scope_key =
    if non_empty scope_key
    then normalized (state_of scope_key (read_planning_scope_map storage))
    else none

unfoldable pub has_planning_state : LocalStorage → Text → Bool
has_planning_state storage scope_key =
    if non_empty scope_key
    then is_there (state_of scope_key (read_planning_scope_map storage))
    else false

unfoldable pub save_planning_state :
    LocalStorage → Text → StoredState → LocalStorage × Option PlanningState
save_planning_state storage scope_key state =
    let normal = normalize_planning_state state in
    let next_map = set_state scope_key (to_stored normal) (read_planning_scope_map storage) in
    if non_empty scope_key
    then (write_planning_scope_map storage next_map, some normal)
    else (storage, none)

-- `planning::${sprintId}::${groupId}`
unfoldable pub build_planning_scope_key : Option Text → Option Text → Text
build_planning_scope_key sprint_id group_id =
    text "planning::" ++ (trimmed sprint_id ++ (text "::" ++ trimmed group_id))

unfoldable pub resolve_planning_team_selection :
    Option StoredState → TeamsValue → TeamsValue → TeamsValue → List Text
resolve_planning_team_selection (some scoped) live prefs_teams prefs_team =
    normalize_team_id_list (stored_teams scoped.selected_teams scoped.selected_team_id)
resolve_planning_team_selection none (many ids) prefs_teams prefs_team =
    normalize_team_id_list (many ids)
resolve_planning_team_selection none (single id) prefs_teams prefs_team =
    normalize_team_id_list (single id)
resolve_planning_team_selection none absent prefs_teams prefs_team =
    normalize_team_id_list (stored_teams prefs_teams prefs_team)

-- `reconcilePlanningSelection` and `normalizeReconciledPlanningState`. The sets are lists.
unfoldable pub reconcile_planning_selection : StoredState → List Text → List Text → PlanningState
reconcile_planning_selection stored valid_task_keys valid_team_ids =
    let normal = normalize_planning_state stored in
    let teams =
      filter (λ id. text_beq id all_id || includes id valid_team_ids) normal.selected_teams in
    let next_teams = (if non_empty teams then teams else all_only) in
    record {
      selected_task_keys = filter (λ key. includes key valid_task_keys) normal.selected_task_keys;
      selected_teams = next_teams;
      selected_team_id = first_team next_teams;
      selection_mode = normal.selection_mode;
    }

-- `Array.from(validTaskKeySet).map(toTrimmedString).filter(Boolean).sort()`
unfoldable pub all_valid_task_keys : List Text → List Text
all_valid_task_keys valid = sort (filter non_empty (map trim valid))

unfoldable pub resolve_planning_selection_state :
    Bool → StoredState → Bool → List Text → List Text → PlanningState
resolve_planning_selection_state has_stored stored is_future valid_task_keys valid_team_ids =
    let reconciled = reconcile_planning_selection stored valid_task_keys valid_team_ids in
    let mode =
      (if has_stored
        then reconciled.selection_mode
        else if is_future
        then default_all
        else manual) in
    record reconciled {
      selected_task_keys =
          if is_future && is_default_all mode
          then all_valid_task_keys valid_task_keys
          else reconciled.selected_task_keys;
      selection_mode = mode;
    }

-- `hydratePlanningState`: the ids that it adds to the object are not read again.
unfoldable pub hydrate_planning_state : StoredState → List Text → List Text → PlanningState
hydrate_planning_state stored valid_task_keys valid_team_ids =
    reconcile_planning_selection (to_stored (normalize_planning_state stored)) valid_task_keys
      valid_team_ids
