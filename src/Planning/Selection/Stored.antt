-- ===== src/Planning/Selection/Stored.antt =====
-- The stored selection follows the selection shown.
use jira_execution_planner.Base.{
  ◌≡◌, ◌≢◌, refl, ap, ◌∙◌, Bool, true, ◌&&◌, ◌||◌, Option, none, some, List, [], ◌∷◌, map, arith,
  Bool-cases, inl, inr, false,
}
use jira_execution_planner.Base.Lists.{
  filter, includes, non_empty, All, All-filter, includes-filter, includes-unique, filter-eq_of_All,
  All-map,
}
use jira_execution_planner.Base.Text.{
  Text, text, text_beq, text_beq_iff, text_equality, trim, trimmed, text_le,
}
use jira_execution_planner.Base.Dict.{Dict, insert, keys, includes-keys}
use jira_execution_planner.Base.Sort.{sort, sort_by-All, includes-sort_by}
use jira_execution_planner.Planning.Teams.{TeamsValue}
use jira_execution_planner.Planning.State.{
  SelectionMode, manual, StoredState, PlanningState, LocalStorage, normalize_planning_state,
  normalize_key_list, load_planning_state, save_planning_state, write_planning_scope_map,
  read_planning_scope_map, Raw, nothing, unreadable, array_text, scope_map, set_state, written,
  parsed, is_array, to_stored,
}
use jira_execution_planner.Planning.State.Normal.{
  IsKey, normalize_key_list-IsKey, map_fixed, normalize-mode_text,
}
use jira_execution_planner.Planning.State.Persist.{load-save}
use jira_execution_planner.Planning.Selection.{
  is_selected, add_keys, selected_task_map_from_keys, selected_task_keys_from_map,
}
use jira_execution_planner.Planning.Selection.Maps.{is_selected-insert, is_selected-nil}
use jira_execution_planner.Planning.Selection.Handlers.{
  stored_selection, task_map_or_empty, mode_or_manual, Baseline, View, Dashboard, Action,
  toggle_task, clear_selected, select_all_visible, select_by_status, include_by_status,
  toggle_include, undo, persist_planning_selection_state, choose, track, mark_bulk_changed, undo_to,
  perform,
}

-- The keys that are written are exactly the selected ones.
pub includes-selected_task_keys :
    (j : Text) (m : Dict Bool) → includes j (selected_task_keys_from_map m none) ≡ is_selected j m
unfolding selected_task_keys_from_map sort is_selected
includes-selected_task_keys j m = ground (
  arith,
  includes-sort_by text_le j (filter (λ k. is_selected k m && true) (keys m)),
  includes-filter (λ k. is_selected k m && true) j (keys m),
  includes-keys j m,
)

is_selected-add_keys :
    (j : Text) (m : Dict Bool) (l : List Text)
    → All IsKey l
    → is_selected j (add_keys m (map (λ k. some k) l)) ≡ (is_selected j m || includes j l)
unfolding add_keys trimmed
is_selected-add_keys j m [] h = ground arith
is_selected-add_keys j m (k ∷ l) h = ground (
  arith,
  h.0.filled,
  h.0.trimmed_key,
  is_selected-add_keys j (insert k true m) l h.1,
  is_selected-insert j k m,
)

pub is_selected-map_from_keys :
    (j : Text) (l : List Text)
    → All IsKey l
    → is_selected j (selected_task_map_from_keys (map (λ k. some k) l)) ≡ includes j l
unfolding selected_task_map_from_keys
is_selected-map_from_keys j l h = ground (arith, is_selected-add_keys j [] l h, is_selected-nil j)

-- Normalising keeps the members of a list of keys.
includes-normalize_key_list :
    (j : Text) (l : List Text)
    → All IsKey l
    → includes j (normalize_key_list (some l)) ≡ includes j l
unfolding normalize_key_list
includes-normalize_key_list j l h =
    includes-unique j (filter non_empty (map trim l))
    ∙ ap (λ x. includes j (filter non_empty x))
        (map_fixed trim l (All-map (λ k i. i.trimmed_key) l h))
    ∙ ap (includes j) (filter-eq_of_All non_empty l (All-map (λ k i. i.filled) l h))

selected_task_keys-IsKey :
    (m : Dict Bool) → All IsKey (keys m) → All IsKey (selected_task_keys_from_map m none)
unfolding selected_task_keys_from_map sort
selected_task_keys-IsKey m h =
    sort_by-All text_le IsKey (filter (λ k. is_selected k m && true) (keys m))
      (All-filter IsKey (λ k. is_selected k m && true) (keys m) h)

-- The storage works: it can be read and written, and does not hold the text of an array, which
-- loses whatever is saved in it.
pub record Works (storage : LocalStorage) : Type 0 where
  pub readable : storage.can_get ≡ true
  pub writable : storage.can_set ≡ true
  pub no_array : is_array storage.raw ≡ false

-- The stored state of the scope is what the dashboard shows.
pub record IsStored (view : View) (d : Dashboard) : Type 0 where
  pub state : PlanningState
  pub loaded : load_planning_state d.storage view.scope_key ≡ some state
  pub keys_stored :
      state.selected_task_keys
      ≡ normalize_key_list (some (selected_task_keys_from_map d.selected_tasks none))
  pub mode_stored : state.selection_mode ≡ d.selection_mode

-- Loading what is stored selects the tasks that are shown.
pub reload_shows :
    {view : View} (d : Dashboard) (s : IsStored view d)
    → All IsKey (keys d.selected_tasks)
    → (j : Text)
    → is_selected j (selected_task_map_from_keys (map (λ k. some k) s.state.selected_task_keys))
      ≡ is_selected j d.selected_tasks
reload_shows d s h j =
    let l = selected_task_keys_from_map d.selected_tasks none in
    rw s.keys_stored (
      is_selected-map_from_keys j (normalize_key_list (some l)) (normalize_key_list-IsKey (some l))
      ∙ includes-normalize_key_list j l (selected_task_keys-IsKey d.selected_tasks h)
      ∙ includes-selected_task_keys j d.selected_tasks)

written_no_array :
    (key : Text) (state : StoredState) (raw : Raw)
    → is_array raw ≡ false
    → is_array (written (set_state key state (parsed raw))) ≡ false
written_no_array key state nothing h = refl
written_no_array key state unreadable h = refl
written_no_array key state array_text h = absurd (ground arith)
written_no_array key state (scope_map states) h = refl

Works-save :
    (storage : LocalStorage) (key : Text) (state : StoredState)
    → Works storage
    → Works (save_planning_state storage key state).0
unfolding save_planning_state read_planning_scope_map write_planning_scope_map
Works-save storage key state w =
    let stored = to_stored (normalize_planning_state state) in
    let kept = written_no_array key stored storage.raw w.no_array in
    let get = w.readable in
    let set = w.writable in
    let flat = w.no_array in
    record { readable = ground arith; writable = ground arith; no_array = ground arith }

module _ (normalize_teams : TeamsValue → List Text) (view : View)
    (keyed : non_empty view.scope_key ≡ true) where
  pub choose-IsStored :
      (next : Dict Bool) (mode : SelectionMode) (d : Dashboard)
      → Works d.storage
      → IsStored view (choose normalize_teams view next mode d)
  unfolding choose persist_planning_selection_state
  choose-IsStored next mode d w =
      let st = stored_selection normalize_teams next mode view.selected_teams in
      record {
        state = normalize_planning_state st;
        loaded = ground (
          arith,
          keyed,
          load-save d.storage view.scope_key st w.readable w.writable keyed view.scope_key,
          w.no_array,
          text_beq_iff view.scope_key view.scope_key,
        );
        keys_stored = unfold normalize_planning_state stored_selection in refl;
        mode_stored = unfold normalize_planning_state stored_selection in normalize-mode_text mode;
      }

  choose-Works :
      (next : Dict Bool) (mode : SelectionMode) (d : Dashboard)
      → Works d.storage
      → Works (choose normalize_teams view next mode d).storage
  unfolding choose persist_planning_selection_state
  choose-Works next mode d w = rw keyed (
      Works-save d.storage view.scope_key
        (stored_selection normalize_teams next mode view.selected_teams) w)

  mark-storage : (d : Dashboard) → (mark_bulk_changed view d).storage ≡ d.storage
  unfolding mark_bulk_changed
  mark-storage d = ground arith

  marked : (d : Dashboard) → Works d.storage → Works (mark_bulk_changed view d).storage
  marked d w = rw (mark-storage d) w

  chosen :
      (action : Text) (next : Dict Bool) (mode : SelectionMode) (d : Dashboard)
      → Works d.storage
      → IsStored view (track action (choose normalize_teams view next mode d))
        × Works (track action (choose normalize_teams view next mode d)).storage
  unfolding track
  chosen action next mode d w =
      let s = choose-IsStored next mode d w in
      (
        record {
          state = s.state;
          loaded = s.loaded;
          keys_stored = s.keys_stored;
          mode_stored = s.mode_stored;
        },
        choose-Works next mode d w,
      )

  pub undo_to-IsStored :
      (b : Option Baseline) (d : Dashboard)
      → Works d.storage
      → IsStored view d
      → IsStored view (undo_to normalize_teams view b d)
        × Works (undo_to normalize_teams view b d).storage
  unfolding undo_to track
  undo_to-IsStored none d w s = (s, w)
  undo_to-IsStored (some b) d w s = elim (Bool-cases (text_beq b.scope_key view.scope_key)) [
    | inl ours ↦
        let (t, w') =
          chosen (text "undo_selection") (task_map_or_empty b.selected_tasks)
            (mode_or_manual b.selection_mode) d w in
        rw ours (
          record {
            state = t.state;
            loaded = t.loaded;
            keys_stored = t.keys_stored;
            mode_stored = t.mode_stored;
          },
          w',
        )
    | inr other ↦ rw other (s, w)
  ]

  module _ (normalize_status : Option Text → Text) where
    -- Every handler but undo stores what it shows, whatever was stored before.
    pub perform-IsStored :
        (a : Action) (d : Dashboard)
        → a ≢ undo
        → Works d.storage
        → IsStored view (perform normalize_teams view normalize_status a d)
          × Works (perform normalize_teams view normalize_status a d).storage
    unfolding perform
    perform-IsStored (toggle_task key) d h w = chosen (text "toggle_task") _ manual d w
    perform-IsStored clear_selected d h w =
        chosen (text "clear_selection") [] manual (mark_bulk_changed view d) (marked d w)
    perform-IsStored select_all_visible d h w =
        chosen (text "select_all_visible") _ _ (mark_bulk_changed view d) (marked d w)
    perform-IsStored (select_by_status statuses) d h w =
        chosen (text "select_status") _ manual (mark_bulk_changed view d) (marked d w)
    perform-IsStored (include_by_status statuses) d h w =
        (choose-IsStored _ manual d w, choose-Works _ manual d w)
    perform-IsStored (toggle_include statuses) d h w =
        chosen _ _ manual (mark_bulk_changed view d) (marked d w)
    perform-IsStored undo d h w = absurd (h refl)
