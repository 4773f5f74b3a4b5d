-- ===== src/Planning/Selection/Hydrate.antt =====
-- The effect of frontend/src/dashboard.jsx that shows the resolved selection of a scope once its
-- tasks are loaded, and captures it as the baseline of undo; behind its guards, and but for
-- `setSelectedTeams`.
use jira_execution_planner.Base.{
  ◌≡◌, refl, sym, ap, subst, ◌∙◌, Bool, true, false, ◌&&◌, Option, some, List, [], ◌∷◌, map, arith,
  Bool-cases, inl, inr, if◌then◌else◌,
}
use jira_execution_planner.Base.Lists.{All, filter, includes, includes-filter}
use jira_execution_planner.Base.Text.{Text, text_beq, text_beq_iff, text_equality, text_le}
use jira_execution_planner.Base.Dict.{Dict, keys, includes-keys}
use jira_execution_planner.Base.Sort.{sort, includes-sort_by}
use jira_execution_planner.Planning.Teams.{TeamsValue, many, ids_equal}
use jira_execution_planner.Planning.Teams.Sanitize.{ids_equal_sound}
use jira_execution_planner.Planning.State.Normal.{IsKey}
use jira_execution_planner.Planning.Selection.{
  DashboardSelection, is_selected, selected_task_map_from_keys, selected_task_keys_from_map,
}
use jira_execution_planner.Planning.Selection.Stored.{is_selected-map_from_keys}
use jira_execution_planner.Planning.Selection.Handlers.{
  Baseline, View, Dashboard, Action, undo, choose, track, undo_to, perform,
  persist_planning_selection_state,
}

-- The dashboard with `planningLoadedSelectionRef` and `planningBaselineScopeRef`
pub record LoadedScope : Type 0 where
  pub dashboard : Dashboard
  pub baseline : Option Baseline
  -- The empty text at first
  pub baseline_scope : Text

-- What happens while a scope is shown: an action, or the effect again, which runs after each change
-- of the selection or of the tasks.
pub data ScopeEvent : Type 0 where
  act : Action → ScopeEvent
  reload : DashboardSelection → ScopeEvent

-- `selectedTaskMapFromKeys(nextSelectedTaskKeys)`
abbrev pub next_map : DashboardSelection → Dict Bool
next_map s = selected_task_map_from_keys (map (λ k. some k) s.next_selected_task_keys)

-- The map that `setSelectedTasks` keeps or sets
abbrev pub shown_map : DashboardSelection → Dict Bool → Dict Bool
shown_map s previous =
    if ids_equal (selected_task_keys_from_map previous (some s.valid_task_key_set))
      s.next_selected_task_keys
    then previous
    else next_map s

abbrev pub captured : Text → DashboardSelection → Baseline
captured scope_key s = record {
  scope_key = scope_key;
  selected_tasks = some (next_map s);
  selection_mode = some s.next_selection_mode;
}

module _ (normalize_selected_teams : TeamsValue → List Text) where
  unfoldable pub hydrate : Text → DashboardSelection → LoadedScope → LoadedScope
  hydrate scope_key s h =
      let d = record h.dashboard {
        selected_tasks = shown_map s h.dashboard.selected_tasks;
        selection_mode = s.next_selection_mode;
        storage =
            persist_planning_selection_state normalize_selected_teams h.dashboard.storage scope_key
              (next_map s) s.next_selection_mode (many s.next_selected_teams);
      } in
      if text_beq h.baseline_scope scope_key then record h { dashboard = d } else record {
        dashboard = record d { can_undo = false };
        baseline = some (captured scope_key s);
        baseline_scope = scope_key;
      }

  module _ (view : View) (normalize_status : Option Text → Text) where
    -- An action, with the baseline that is current
    unfoldable pub act_on : Action → LoadedScope → LoadedScope
    act_on a h = record h {
      dashboard =
          perform normalize_selected_teams (record view { baseline = h.baseline }) normalize_status
            a h.dashboard;
    }

    unfoldable pub handle_scope_event : ScopeEvent → LoadedScope → LoadedScope
    unfolding act_on hydrate
    handle_scope_event (act a) h = act_on a h
    handle_scope_event (reload s) h = hydrate view.scope_key s h

    unfoldable pub handle_scope_events : List ScopeEvent → LoadedScope → LoadedScope
    unfolding handle_scope_event
    handle_scope_events [] h = h
    handle_scope_events (e ∷ events) h = handle_scope_events events (handle_scope_event e h)

includes-valid_task_keys :
    (j : Text) (m : Dict Bool) (valid : List Text)
    → includes j valid ≡ true
    → includes j (selected_task_keys_from_map m (some valid)) ≡ is_selected j m
unfolding selected_task_keys_from_map sort is_selected
includes-valid_task_keys j m valid h = ground (
  arith,
  h,
  includes-sort_by text_le j (filter (λ k. is_selected k m && includes k valid) (keys m)),
  includes-filter (λ k. is_selected k m && includes k valid) j (keys m),
  includes-keys j m,
)

-- The effect shows the captured selection, on the keys that are valid.
shown-next :
    (s : DashboardSelection) (previous : Dict Bool) (k : Text)
    → All IsKey s.next_selected_task_keys
    → includes k s.valid_task_key_set ≡ true
    → is_selected k (next_map s) ≡ is_selected k (shown_map s previous)
shown-next s previous k keyed valid =
    let kept = selected_task_keys_from_map previous (some s.valid_task_key_set) in
    elim (Bool-cases (ids_equal kept s.next_selected_task_keys)) [
      | inl e ↦ rw e (
          is_selected-map_from_keys k s.next_selected_task_keys keyed
          ∙ ap (includes k) (sym (ids_equal_sound kept s.next_selected_task_keys e))
          ∙ includes-valid_task_keys k previous s.valid_task_key_set valid)
      | inr e ↦ rw e refl
    ]

-- What an undo to a captured baseline shows.
undo_to-captured :
    (normalize_teams : TeamsValue → List Text) (view : View) (s : DashboardSelection)
    (d : Dashboard)
    → ((undo_to normalize_teams view (some (captured view.scope_key s)) d).selected_tasks
        ≡ next_map s)
      × ((undo_to normalize_teams view (some (captured view.scope_key s)) d).selection_mode
          ≡ s.next_selection_mode)
      × ((undo_to normalize_teams view (some (captured view.scope_key s)) d).can_undo ≡ false)
unfolding undo_to track choose
undo_to-captured normalize_teams view s d =
    rw ((text_beq_iff view.scope_key view.scope_key).1 refl) (refl, refl, refl)

-- The baseline is the selection captured for the scope.
record IsCaptured (scope_key : Text) (s : DashboardSelection) (h : LoadedScope) : Type 0 where
  is_baseline : h.baseline ≡ some (captured scope_key s)
  same_scope : text_beq h.baseline_scope scope_key ≡ true

module _ (normalize_teams : TeamsValue → List Text) (normalize_status : Option Text → Text)
    (view : View) (s : DashboardSelection) where
  handle_scope_event-IsCaptured :
      (e : ScopeEvent) (h : LoadedScope)
      → IsCaptured view.scope_key s h
      → IsCaptured view.scope_key s (handle_scope_event normalize_teams view normalize_status e h)
  unfolding handle_scope_event act_on hydrate
  handle_scope_event-IsCaptured (act a) h c = record {
    is_baseline = c.is_baseline;
    same_scope = c.same_scope;
  }
  handle_scope_event-IsCaptured (reload r) h c =
      rw c.same_scope (record { is_baseline = c.is_baseline; same_scope = c.same_scope })

  handle_scope_events-IsCaptured :
      (events : List ScopeEvent) (h : LoadedScope)
      → IsCaptured view.scope_key s h
      → IsCaptured view.scope_key s
          (handle_scope_events normalize_teams view normalize_status events h)
  unfolding handle_scope_events
  handle_scope_events-IsCaptured [] h c = c
  handle_scope_events-IsCaptured (e ∷ events) h c =
      handle_scope_events-IsCaptured events
        (handle_scope_event normalize_teams view normalize_status e h)
        (handle_scope_event-IsCaptured e h c)

  hydrate-IsCaptured :
      (before : LoadedScope)
      → text_beq before.baseline_scope view.scope_key ≡ false
      → IsCaptured view.scope_key s (hydrate normalize_teams view.scope_key s before)
  unfolding hydrate
  hydrate-IsCaptured before fresh = rw fresh (record {
    is_baseline = refl;
    same_scope = (text_beq_iff view.scope_key view.scope_key).1 refl;
  })

  -- Once a scope is loaded that was not the one of the baseline, then after any actions and reloads
  -- of the scope an undo shows the loaded selection again: a task that was valid at the load is
  -- selected exactly if it was after the load, the mode is that of the load, and the undo is
  -- withdrawn. The keys of the resolved selection are trimmed and not empty.
  pub undo-hydrate :
      (before : LoadedScope) (events : List ScopeEvent) (k : Text)
      → text_beq before.baseline_scope view.scope_key ≡ false
      → All IsKey s.next_selected_task_keys
      → includes k s.valid_task_key_set ≡ true
      → let loaded = hydrate normalize_teams view.scope_key s before in
        let after = handle_scope_events normalize_teams view normalize_status events loaded in
        let undone =
          (handle_scope_event normalize_teams view normalize_status (act undo) after).dashboard in
        (is_selected k undone.selected_tasks ≡ is_selected k loaded.dashboard.selected_tasks)
        × (undone.selection_mode ≡ loaded.dashboard.selection_mode)
        × (undone.can_undo ≡ false)
  unfolding hydrate handle_scope_event act_on perform
  undo-hydrate before events k fresh keyed valid =
      let loaded = hydrate normalize_teams view.scope_key s before in
      let after = handle_scope_events normalize_teams view normalize_status events loaded in
      let c = handle_scope_events-IsCaptured events loaded (hydrate-IsCaptured before fresh) in
      let v : View = record view { baseline = after.baseline } in
      let (tasks, mode, withdrawn) = undo_to-captured normalize_teams v s after.dashboard in
      let shown : is_selected k loaded.dashboard.selected_tasks
          ≡ is_selected k (shown_map s before.dashboard.selected_tasks) =
        rw fresh refl in
      let loaded_mode : loaded.dashboard.selection_mode ≡ s.next_selection_mode = rw fresh refl in
      subst
        (λ b.
          (is_selected k (undo_to normalize_teams v b after.dashboard).selected_tasks
            ≡ is_selected k loaded.dashboard.selected_tasks)
          × ((undo_to normalize_teams v b after.dashboard).selection_mode
              ≡ loaded.dashboard.selection_mode)
          × ((undo_to normalize_teams v b after.dashboard).can_undo ≡ false))
        (sym c.is_baseline)
        (
          ap (is_selected k) tasks
              ∙ shown-next s before.dashboard.selected_tasks k keyed valid
              ∙ sym shown,
          mode ∙ sym loaded_mode,
          withdrawn,
        )
