-- ===== src/Planning/State/Tests.antt =====
-- The planning state on small inputs.
use jira_execution_planner.Base.{
  ◌&&◌, not, ◌≡◌, refl, none, some, List, [], ◌∷◌, true, if◌then◌else◌, inr,
}
use jira_execution_planner.Base.Lists.{All, Distinct, unique_from}
use jira_execution_planner.Base.Text.{Text, text, text_equality, text_beq, trim, trimmed, text_le}
use jira_execution_planner.Base.Dict.{lookup, insert, is_there}
use jira_execution_planner.Base.Sort.{sort}
use jira_execution_planner.Planning.Teams.{many, single, absent}
use jira_execution_planner.Planning.State.{
  StoredState, LocalStorage, unreadable, array_text, is_array, default_all, to_stored,
  normalize_key_list, normalize_team_id_list, normalize_selection_mode, stored_teams,
  normalize_planning_state, read_planning_scope_map, write_planning_scope_map, load_planning_state,
  has_planning_state, save_planning_state, build_planning_scope_key,
  resolve_planning_team_selection, reconcile_planning_selection, all_valid_task_keys,
  resolve_planning_selection_state,
}
use jira_execution_planner.Planning.State.Normal.{
  IsKey, normalize_planning_state-IsNormal, normalize-to_stored,
}
use jira_execution_planner.Planning.State.Persist.{
  saved, load-save, save_unchanged, has-eq-is_there-load,
}
use jira_execution_planner.Planning.State.Resolve.{IsReconciled, resolve-IsReconciled}

program : Unit {0}
unfolding normalize_key_list normalize_team_id_list normalize_selection_mode stored_teams
    normalize_planning_state read_planning_scope_map write_planning_scope_map load_planning_state
    has_planning_state save_planning_state build_planning_scope_key resolve_planning_team_selection
    reconcile_planning_selection all_valid_task_keys resolve_planning_selection_state sort text_le
    text_beq trim trimmed unique_from lookup insert
program = tt

abbrev stored : StoredState
stored = record {
  selected_task_keys = some (text " A-2" ∷ text "A-1" ∷ text "A-2" ∷ text "" ∷ []);
  selected_teams = absent;
  selected_team_id = single (text "t1 ");
  selection_mode = some (text "default_all");
}

normalize-stored : normalize_planning_state stored ≡ record {
  selected_task_keys = text "A-2" ∷ text "A-1" ∷ [];
  selected_teams = text "t1" ∷ [];
  selected_team_id = text "t1";
  selection_mode = default_all;
}
unfolding program
normalize-stored = refl

abbrev broken : LocalStorage
broken = record { raw = unreadable; can_get = true; can_set = true }

scope_key : build_planning_scope_key (some (text "42 ")) none ≡ text "planning::42::"
unfolding program
scope_key = refl

live_teams_first :
    resolve_planning_team_selection none (many (text "t2" ∷ [])) absent (single (text "t1"))
    ≡ text "t2" ∷ []
unfolding program
live_teams_first = refl

abbrev valid : List Text
valid = text "A-3" ∷ text "A-1" ∷ []

valid-IsKey : All IsKey valid
unfolding trim
valid-IsKey = (
  record { filled = refl; trimmed_key = refl },
  (record { filled = refl; trimmed_key = refl }, tt),
)

valid-Distinct : Distinct valid
unfolding text_beq
valid-Distinct = (refl, (refl, tt))

resolve_future :
    (resolve_planning_selection_state true stored true valid []).selected_task_keys
    ≡ text "A-1" ∷ text "A-3" ∷ []
unfolding program
resolve_future = refl

normalize-to_stored_example :
    normalize_planning_state (to_stored (normalize_planning_state stored))
    ≡ normalize_planning_state stored
normalize-to_stored_example =
    normalize-to_stored (normalize_planning_state stored) (normalize_planning_state-IsNormal stored)

load-save_example : load_planning_state (saved broken (text "k") stored) (text "k") ≡ (
    if text_beq (text "k") (text "k") && not (is_array broken.raw)
    then some (normalize_planning_state stored)
    else load_planning_state broken (text "k"))
load-save_example = load-save broken (text "k") stored refl refl refl (text "k")

array_loses_saves :
    load_planning_state
      (saved (record { raw = array_text; can_get = true; can_set = true }) (text "k") stored)
      (text "k")
    ≡ none
unfolding program
array_loses_saves = refl

save_unchanged_example : saved broken [] stored ≡ broken
save_unchanged_example = save_unchanged broken [] stored (inr refl)

has-eq_example :
    has_planning_state broken (text "k") ≡ is_there (load_planning_state broken (text "k"))
has-eq_example = has-eq-is_there-load broken (text "k")

resolve-IsReconciled_example :
    IsReconciled valid
      (text "t1" ∷ [])
      (resolve_planning_selection_state true stored true valid (text "t1" ∷ []))
resolve-IsReconciled_example =
    resolve-IsReconciled valid valid-IsKey valid-Distinct true true stored (text "t1" ∷ [])
