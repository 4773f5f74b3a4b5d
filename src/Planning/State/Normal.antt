-- ===== src/Planning/State/Normal.antt =====
-- Normalising a state: what the result holds, and that doing it again changes nothing.
use jira_execution_planner.Base.{
  ◌≡◌, refl, ap, ◌∙◌, true, Option, none, some, List, [], ◌∷◌, map, arith, Bool-cases, inl, inr,
}
use jira_execution_planner.Base.Lists.{
  filter, unique, non_empty, All, Distinct, unique-Distinct, unique-eq_of_Distinct,
  filter-eq_of_All, All-unique_from, All-map,
}
use jira_execution_planner.Base.Text.{Text, text_beq, text_equality, trim, trim_idem}
use jira_execution_planner.Planning.Teams.{
  TeamsValue, many, single, absent, all_id, all_only, or_text,
}
use jira_execution_planner.Planning.State.{
  SelectionMode, manual, default_all, mode_text, StoredState, PlanningState, normalize_key_list,
  normalize_team_id, normalize_team_id_list, normalize_selection_mode, stored_teams,
  normalize_planning_state, to_stored, first_team,
}

-- A trimmed text that is not empty.
pub record IsKey (k : Text) : Type 0 where
  pub filled : non_empty k ≡ true
  pub trimmed_key : trim k ≡ k

map-trim : (keys : List Text) → All (λ k. trim k ≡ k) (map trim keys)
map-trim [] = tt
map-trim (k ∷ keys) = (trim_idem k, map-trim keys)

pub filter-IsKey :
    (keys : List Text) → All (λ k. trim k ≡ k) keys → All IsKey (filter non_empty keys)
filter-IsKey [] h = tt
filter-IsKey (k ∷ keys) h = elim (Bool-cases (non_empty k)) [
  | inl e ↦ rw e (record { filled = e; trimmed_key = h.0 }, filter-IsKey keys h.1)
  | inr e ↦ rw e (filter-IsKey keys h.1)
]

pub normalize_key_list-IsKey : (keys : Option (List Text)) → All IsKey (normalize_key_list keys)
unfolding normalize_key_list
normalize_key_list-IsKey none = tt
normalize_key_list-IsKey (some keys) =
    All-unique_from IsKey [] (filter non_empty (map trim keys))
      (filter-IsKey (map trim keys) (map-trim keys))

pub normalize_key_list-Distinct : (keys : Option (List Text)) → Distinct (normalize_key_list keys)
unfolding normalize_key_list
normalize_key_list-Distinct none = tt
normalize_key_list-Distinct (some keys) = unique-Distinct (filter non_empty (map trim keys))

pub map_fixed : (f : Text → Text) (keys : List Text) → All (λ k. f k ≡ k) keys → map f keys ≡ keys
map_fixed f [] h = refl
map_fixed f (k ∷ keys) h = cc (h.0, map_fixed f keys h.1)

-- Distinct keys are a normal list.
pub normalize_key_list_fixed :
    (keys : List Text) → All IsKey keys → Distinct keys → normalize_key_list (some keys) ≡ keys
unfolding normalize_key_list
normalize_key_list_fixed keys h d =
    ap (λ l. unique (filter non_empty l))
      (map_fixed trim keys (All-map (λ k i. i.trimmed_key) keys h))
    ∙ ap unique (filter-eq_of_All non_empty keys (All-map (λ k i. i.filled) keys h))
    ∙ unique-eq_of_Distinct keys d

or_all_fixed : (s : Text) → trim s ≡ s → or_text (trim (or_text s all_id)) all_id ≡ or_text s all_id
unfolding trim
or_all_fixed [] h = refl
or_all_fixed (c ∷ s) h = ap (λ t. or_text t all_id) h

normalize_team_id_idem :
    (id : Text) → normalize_team_id (normalize_team_id id) ≡ normalize_team_id id
unfolding normalize_team_id
normalize_team_id_idem id = or_all_fixed (trim id) (trim_idem id)

map-normalize_team_id :
    (ids : List Text) → All (λ k. normalize_team_id k ≡ k) (map normalize_team_id ids)
map-normalize_team_id [] = tt
map-normalize_team_id (k ∷ ids) = (normalize_team_id_idem k, map-normalize_team_id ids)

-- A list of normal team ids: not empty, no id twice.
pub record IsTeamList (ids : List Text) : Type 0 where
  pub some_id : non_empty ids ≡ true
  pub distinct : Distinct ids
  pub normal : All (λ k. normalize_team_id k ≡ k) ids

one_team : (id : Text) → IsTeamList (normalize_team_id id ∷ [])
one_team id = record {
  some_id = refl;
  distinct = (refl, tt);
  normal = (normalize_team_id_idem id, tt);
}

pub all_only-IsTeamList : IsTeamList all_only
unfolding normalize_team_id trim
all_only-IsTeamList = record { some_id = refl; distinct = (refl, tt); normal = (refl, tt) }

pub normalize_team_id_list-IsTeamList : (v : TeamsValue) → IsTeamList (normalize_team_id_list v)
unfolding normalize_team_id_list
normalize_team_id_list-IsTeamList absent = one_team []
normalize_team_id_list-IsTeamList (single id) = one_team id
normalize_team_id_list-IsTeamList (many ids) =
    elim (Bool-cases (non_empty (unique (map normalize_team_id ids)))) [
      | inl e ↦ rw e (record {
        some_id = e;
        distinct = unique-Distinct (map normalize_team_id ids);
        normal =
            All-unique_from (λ k. normalize_team_id k ≡ k) [] (map normalize_team_id ids)
              (map-normalize_team_id ids);
      })
      | inr e ↦ rw e all_only-IsTeamList
    ]

pub normalize_team_id_list_fixed :
    (ids : List Text) → IsTeamList ids → normalize_team_id_list (many ids) ≡ ids
unfolding normalize_team_id_list
normalize_team_id_list_fixed ids t =
    let same : unique (map normalize_team_id ids) ≡ ids =
      ap unique (map_fixed normalize_team_id ids t.normal) ∙ unique-eq_of_Distinct ids t.distinct in
    rw (same, t.some_id) refl

pub normalize-mode_text : (m : SelectionMode) → normalize_selection_mode (some (mode_text m)) ≡ m
unfolding normalize_selection_mode text_beq
normalize-mode_text manual = refl
normalize-mode_text default_all = refl

-- What every normal state satisfies.
pub record IsNormal (s : PlanningState) : Type 0 where
  pub keys_ok : All IsKey s.selected_task_keys
  pub keys_distinct : Distinct s.selected_task_keys
  pub teams_ok : IsTeamList s.selected_teams
  pub first_ok : s.selected_team_id ≡ first_team s.selected_teams

pub normalize_planning_state-IsNormal :
    (stored : StoredState) → IsNormal (normalize_planning_state stored)
unfolding normalize_planning_state
normalize_planning_state-IsNormal stored = record {
  keys_ok = normalize_key_list-IsKey stored.selected_task_keys;
  keys_distinct = normalize_key_list-Distinct stored.selected_task_keys;
  teams_ok =
      normalize_team_id_list-IsTeamList
        (stored_teams stored.selected_teams stored.selected_team_id);
  first_ok = refl;
}

-- A normal state that is written and read again is the same state.
pub normalize-to_stored :
    (s : PlanningState) → IsNormal s → normalize_planning_state (to_stored s) ≡ s
unfolding normalize_planning_state stored_teams
normalize-to_stored s n = ground (
  arith,
  normalize_key_list_fixed s.selected_task_keys n.keys_ok n.keys_distinct,
  normalize_team_id_list_fixed s.selected_teams n.teams_ok,
  n.first_ok,
  normalize-mode_text s.selection_mode,
)
