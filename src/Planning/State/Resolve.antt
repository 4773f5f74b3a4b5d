-- ===== src/Planning/State/Resolve.antt =====
-- The selection that the dashboard shows for a scope.
use jira_execution_planner.Base.{
  ◌≡◌, refl, ap, ◌∙◌, Bool, true, false, ◌&&◌, ◌||◌, List, arith, Bool-cases, inl, inr,
  if◌then◌else◌,
}
use jira_execution_planner.Base.Lists.{
  filter, includes, non_empty, All, Distinct, Distinct-filter, All-filter, filter-eq_of_All,
  filter-All, All-map, All-of_members,
}
use jira_execution_planner.Base.Text.{Text, text_beq, text_equality, trim, text_le}
use jira_execution_planner.Base.Sort.{sort, sort_by-All, sort_by-Distinct}
use jira_execution_planner.Planning.Teams.{all_id, all_only}
use jira_execution_planner.Planning.State.{
  SelectionMode, manual, default_all, is_default_all, StoredState, PlanningState, to_stored,
  normalize_planning_state, reconcile_planning_selection, resolve_planning_selection_state,
  all_valid_task_keys, normalize_team_id,
}
use jira_execution_planner.Planning.State.Normal.{
  IsKey, IsTeamList, IsNormal, map_fixed, all_only-IsTeamList, normalize-to_stored,
  normalize_planning_state-IsNormal,
}

module _ (valid_task_keys valid_team_ids : List Text) where
  -- A normal state whose tasks and teams are all offered; `all` always is.
  pub record IsReconciled (s : PlanningState) : Type 0 where
    pub normal : IsNormal s
    pub valid_tasks : All (λ k. includes k valid_task_keys ≡ true) s.selected_task_keys
    pub valid_teams :
        All (λ id. (text_beq id all_id || includes id valid_team_ids) ≡ true) s.selected_teams

  team_ok : Text → Bool
  team_ok id = text_beq id all_id || includes id valid_team_ids

  filtered_teams :
      (ids : List Text)
      → IsTeamList ids
      → IsTeamList (if non_empty (filter team_ok ids) then filter team_ok ids else all_only)
  filtered_teams ids t = elim (Bool-cases (non_empty (filter team_ok ids))) [
    | inl e ↦ rw e (record {
      some_id = e;
      distinct = Distinct-filter team_ok ids t.distinct;
      normal = All-filter (λ k. normalize_team_id k ≡ k) team_ok ids t.normal;
    })
    | inr e ↦ rw e all_only-IsTeamList
  ]

  filtered_valid :
      (ids : List Text)
      → All
          (λ id. team_ok id ≡ true)
          (if non_empty (filter team_ok ids) then filter team_ok ids else all_only)
  unfolding team_ok text_beq
  filtered_valid ids = elim (Bool-cases (non_empty (filter team_ok ids))) [
    | inl e ↦ rw e (filter-All team_ok ids)
    | inr e ↦ rw e (refl, tt)
  ]

  -- Reconciling any stored state gives a normal state that names offered tasks and teams only.
  pub reconcile-IsReconciled :
      (stored : StoredState)
      → IsReconciled (reconcile_planning_selection stored valid_task_keys valid_team_ids)
  unfolding reconcile_planning_selection team_ok
  reconcile-IsReconciled stored =
      let s = normalize_planning_state stored in
      let n = normalize_planning_state-IsNormal stored in
      let valid = λ (k : Text). includes k valid_task_keys in
      record {
        normal = record {
          keys_ok = All-filter IsKey valid s.selected_task_keys n.keys_ok;
          keys_distinct = Distinct-filter valid s.selected_task_keys n.keys_distinct;
          teams_ok = filtered_teams s.selected_teams n.teams_ok;
          first_ok = refl;
        };
        valid_tasks = filter-All valid s.selected_task_keys;
        valid_teams = filtered_valid s.selected_teams;
      }

  -- A reconciled state is left alone.
  pub reconcile_fixed :
      (s : PlanningState)
      → IsReconciled s
      → reconcile_planning_selection (to_stored s) valid_task_keys valid_team_ids ≡ s
  unfolding reconcile_planning_selection
  reconcile_fixed s r = ground (
    arith,
    normalize-to_stored s r.normal,
    filter-eq_of_All (λ k. includes k valid_task_keys) s.selected_task_keys r.valid_tasks,
    filter-eq_of_All (λ id. text_beq id all_id || includes id valid_team_ids) s.selected_teams
        r.valid_teams,
    r.normal.teams_ok.some_id,
    r.normal.first_ok,
  )

if_twice {ℓ} :
    {A : Type ℓ} (b : Bool) (x y : A) → (if b then x else if b then x else y) ≡ (if b then x else y)
if_twice true x y = refl
if_twice false x y = refl

resolve_of_fixed :
    (valid valid_teams : List Text) (is_future : Bool) (s : PlanningState)
    → reconcile_planning_selection (to_stored s) valid valid_teams ≡ s
    → resolve_planning_selection_state true (to_stored s) is_future valid valid_teams ≡ record s {
      selected_task_keys =
          if is_future && is_default_all s.selection_mode
          then all_valid_task_keys valid
          else s.selected_task_keys;
    }
unfolding resolve_planning_selection_state
resolve_of_fixed valid valid_teams is_future s e =
    ap
      (λ (r : PlanningState). record r {
        selected_task_keys =
            if is_future && is_default_all r.selection_mode
            then all_valid_task_keys valid
            else r.selected_task_keys;
      })
      e

module _ (valid : List Text) (keys_ok : All IsKey valid) (keys_distinct : Distinct valid) where
  -- The valid keys of the dashboard are trimmed already: they are only sorted.
  all_valid_task_keys-eq-sort : all_valid_task_keys valid ≡ sort valid
  unfolding all_valid_task_keys
  all_valid_task_keys-eq-sort =
      ap (λ l. sort (filter non_empty l))
        (map_fixed trim valid (All-map (λ k i. i.trimmed_key) valid keys_ok))
      ∙ ap sort (filter-eq_of_All non_empty valid (All-map (λ k i. i.filled) valid keys_ok))

  module _ (has_stored is_future : Bool) (stored : StoredState) (valid_teams : List Text) where
    abbrev pub result : PlanningState
    result = resolve_planning_selection_state has_stored stored is_future valid valid_teams

    sort-members : All (λ k. includes k valid ≡ true) (sort valid)
    unfolding sort
    sort-members =
        sort_by-All text_le (λ k. includes k valid ≡ true) valid (All-of_members valid (λ a m. m))

    resolved_keys :
        (choose : Bool) (keys : List Text)
        → All IsKey keys × Distinct keys × All (λ k. includes k valid ≡ true) keys
        → let l = (if choose then all_valid_task_keys valid else keys) in
          All IsKey l × Distinct l × All (λ k. includes k valid ≡ true) l
    unfolding sort
    resolved_keys true keys h = rw all_valid_task_keys-eq-sort (
      sort_by-All text_le IsKey valid keys_ok,
      sort_by-Distinct text_le valid keys_distinct,
      sort-members,
    )
    resolved_keys false keys h = h

    -- Whatever was stored, the resolved state names offered tasks and teams only, and is normal.
    pub resolve-IsReconciled : IsReconciled valid valid_teams result
    unfolding resolve_planning_selection_state
    resolve-IsReconciled =
        let r = reconcile_planning_selection stored valid valid_teams in
        let i = reconcile-IsReconciled valid valid_teams stored in
        let mode : SelectionMode =
          (if has_stored then r.selection_mode else if is_future then default_all else manual) in
        let k =
          resolved_keys (is_future && is_default_all mode) r.selected_task_keys
            (i.normal.keys_ok, i.normal.keys_distinct, i.valid_tasks) in
        record {
          normal = record {
            keys_ok = k.0;
            keys_distinct = k.1;
            teams_ok = i.normal.teams_ok;
            first_ok = i.normal.first_ok;
          };
          valid_tasks = k.2;
          valid_teams = i.valid_teams;
        }

    chosen_keys :
        (if is_future && is_default_all result.selection_mode
          then all_valid_task_keys valid
          else result.selected_task_keys)
        ≡ result.selected_task_keys
    unfolding resolve_planning_selection_state
    chosen_keys =
        let r = reconcile_planning_selection stored valid valid_teams in
        let mode : SelectionMode =
          (if has_stored then r.selection_mode else if is_future then default_all else manual) in
        if_twice (is_future && is_default_all mode) (all_valid_task_keys valid) r.selected_task_keys

    -- A resolved state that is stored and resolved again, for the same tasks and teams, is the
    -- same state.
    pub resolve_stable :
        resolve_planning_selection_state true (to_stored result) is_future valid valid_teams
        ≡ result
    resolve_stable =
        resolve_of_fixed valid valid_teams is_future result
          (reconcile_fixed valid valid_teams result resolve-IsReconciled)
        ∙ ap (λ (keys : List Text). record result { selected_task_keys = keys }) chosen_keys
