-- ===== src/Planning/State/Persist.antt =====
-- Saving and loading.
use jira_execution_planner.Base.{
  ◌≡◌, refl, ◌&&◌, not, true, false, some, [], arith, ◌⊎◌, if◌then◌else◌,
}
use jira_execution_planner.Base.Lists.{non_empty}
use jira_execution_planner.Base.Text.{Text, text_beq, text_beq_iff}
use jira_execution_planner.Base.Dict.{lookup, is_there, lookup-insert}
use jira_execution_planner.Planning.State.{
  StoredState, LocalStorage, Raw, nothing, unreadable, array_text, scope_map, ScopeMap, plain,
  array, state_of, set_state, written, parsed, is_array, to_stored, normalize_planning_state,
  read_planning_scope_map, write_planning_scope_map, load_planning_state, has_planning_state,
  save_planning_state,
}
use jira_execution_planner.Planning.State.Normal.{
  normalize-to_stored, normalize_planning_state-IsNormal,
}

of_parsed :
    (key j : Text) (stored : StoredState) (raw : Raw)
    → state_of j (set_state key stored (parsed raw))
      ≡ (if text_beq key j && not (is_array raw) then some stored else state_of j (parsed raw))
unfolding lookup
of_parsed key j stored nothing = ground (arith, lookup-insert key j stored [])
of_parsed key j stored unreadable = ground (arith, lookup-insert key j stored [])
of_parsed key j stored array_text = ground arith
of_parsed key j stored (scope_map states) = ground (arith, lookup-insert key j stored states)

module _ (storage : LocalStorage) (key : Text) (state : StoredState) where
  abbrev pub saved : LocalStorage
  saved = (save_planning_state storage key state).0

  parsed-written : (m : ScopeMap) → parsed (written m) ≡ m
  parsed-written (plain states) = refl
  parsed-written array = refl

  read-saved :
      storage.can_get ≡ true
      → storage.can_set ≡ true
      → non_empty key ≡ true
      → read_planning_scope_map saved
        ≡ set_state key
            (to_stored (normalize_planning_state state))
            (read_planning_scope_map storage)
  unfolding read_planning_scope_map write_planning_scope_map save_planning_state
  read-saved get set k = ground (
    arith,
    parsed-written (
        set_state key (to_stored (normalize_planning_state state))
          (read_planning_scope_map storage)),
  )

  -- With a storage that works, a saved scope loads as the normalised state, whether nothing, a
  -- text that does not parse or a map was stored before; every other scope loads as before. Where
  -- an array was stored, nothing is saved: every scope loads as before.
  pub load-save :
      storage.can_get ≡ true
      → storage.can_set ≡ true
      → non_empty key ≡ true
      → (j : Text)
      → load_planning_state saved j ≡ (
          if text_beq key j && not (is_array storage.raw)
          then some (normalize_planning_state state)
          else load_planning_state storage j)
  unfolding load_planning_state read_planning_scope_map
  load-save get set k j =
      let normal = normalize_planning_state state in
      ground (
        arith,
        read-saved get set k,
        of_parsed key j (to_stored normal) storage.raw,
        text_beq_iff key j,
        normalize-to_stored normal (normalize_planning_state-IsNormal state),
      )

  -- A storage that cannot be written, or a scope with no key, is left alone.
  pub save_unchanged : (storage.can_set ≡ false) ⊎ (key ≡ []) → saved ≡ storage
  unfolding save_planning_state write_planning_scope_map
  save_unchanged h = ground arith

-- `hasPlanningState` says whether `loadPlanningState` finds a state.
pub has-eq-is_there-load :
    (storage : LocalStorage) (key : Text)
    → has_planning_state storage key ≡ is_there (load_planning_state storage key)
unfolding has_planning_state load_planning_state
has-eq-is_there-load storage key = ground arith
