-- ===== src/Groups/Outcome.antt =====
-- What the board shows and keeps after the answer to a toggle.
use jira_execution_planner.Base.{
  suc, ◌≡◌, refl, true, false, Option, none, some, [], ◌∷◌, if◌then◌else◌, if_cases, arith, subst,
  ◌&&◌, ◌||◌, not,
}
use jira_execution_planner.Base.Lists.{non_empty, length, All}
use jira_execution_planner.Base.Text.{Text, text_beq, or_empty, upper_key}
use jira_execution_planner.Base.Dict.{lookup}
use jira_execution_planner.Groups.Toggle.{
  Toggled, build_groups_config_with_excluded_capacity_toggle,
}
use jira_execution_planner.Groups.Exclude.{IsClear, toggle-IsClear, toggle_cases}
use jira_execution_planner.Groups.Save.{
  ToggleRequest, SharedGroupsPayload, build_shared_groups_payload, send_toggled, begin_toggle,
  Board, SaveResponse, saved, threw, rejected,
}

-- What a request that goes out satisfies.
pub record IsPermitted (r : ToggleRequest) (payload : SharedGroupsPayload) : Type 0 where
  pub may_edit : r.can_edit_shared_configuration ≡ true
  pub clean : (r.show_group_manage && r.is_group_draft_dirty) ≡ false
  pub based : payload.base_revision ≡ r.groups_config.config_revision
  pub clear : All IsClear r.groups_config.groups → All IsClear payload.groups

abbrev toggled_of : ToggleRequest → Toggled
toggled_of r =
    build_groups_config_with_excluded_capacity_toggle r.groups_config r.active_group_id
      (some (upper_key r.epic_key))

permitted :
    (r : ToggleRequest)
    → r.can_edit_shared_configuration ≡ true
    → (r.show_group_manage && r.is_group_draft_dirty) ≡ false
    → IsPermitted r (build_shared_groups_payload (toggled_of r).config)
unfolding build_shared_groups_payload
permitted r may clean = record {
  may_edit = may;
  clean = clean;
  based =
      toggle_cases (λ t. t.config.config_revision ≡ r.groups_config.config_revision) r.groups_config
        r.active_group_id (some (upper_key r.epic_key)) (λ error. refl) (λ next named free. refl);
  clear = toggle-IsClear r.groups_config r.active_group_id (some (upper_key r.epic_key));
}

module _ {ℓ} {P S C : Type ℓ} where
  -- The saved configuration is applied, the group's state and the cache are dropped, and the
  -- states of the other groups stay.
  pub record IsSaved (active_group_id : Text) (payload : P) (board board' : Board P S C)
      : Type ℓ where
    pub applies : board'.applied ≡ payload ∷ board.applied
    pub drops :
        (k : Text)
        → lookup k board'.group_state
          ≡ (if text_beq active_group_id k then none else lookup k board.group_state)
    pub clears : board'.capacity_cache ≡ []
    pub tracks : length board'.tracked ≡ suc (length board.tracked)

  -- An error is shown, and the states and the cache stay.
  pub record IsFailed (board board' : Board P S C) : Type ℓ where
    pub shows : non_empty board'.draft_error ≡ true
    pub keeps : board'.group_state ≡ board.group_state
    pub caches : board'.capacity_cache ≡ board.capacity_cache
    pub tracks : length board'.tracked ≡ suc (length board.tracked)

  abbrev pub IsAnswered : Text → SaveResponse P → Board P S C → Board P S C → Type ℓ
  IsAnswered active_group_id (saved payload) board board' =
      IsSaved active_group_id payload board board'
  IsAnswered active_group_id (threw message) board board' = IsFailed board board'
  IsAnswered active_group_id (rejected status payload) board board' = IsFailed board board'

  -- What is sent is the configuration that the toggle gave.
  send_toggled-some :
      (surface : Text) (toggled : Toggled) (board : Board P S C) (payload : SharedGroupsPayload)
      → (send_toggled surface toggled board).1 ≡ some payload
      → build_shared_groups_payload toggled.config ≡ payload
  unfolding send_toggled
  send_toggled-some surface toggled board payload =
      if_cases {A = Board P S C × Option SharedGroupsPayload}
        (λ x. x.1 ≡ some payload → build_shared_groups_payload toggled.config ≡ payload)
        (non_empty (or_empty toggled.error)) (λ _ h. absurd cc)
        (λ _.
          if_cases {A = Board P S C × Option SharedGroupsPayload}
            (λ x. x.1 ≡ some payload → build_shared_groups_payload toggled.config ≡ payload)
            (not toggled.changed) (λ _ h. absurd cc) (λ _ h. cc))

  -- A request goes out only for a user who may edit the shared configuration and has no unsaved
  -- settings open. It bases on the revision that was read; and if no group had an epic both
  -- excluded and ad hoc, no group in the request has.
  pub begin_toggle-IsPermitted :
      (r : ToggleRequest) (board : Board P S C) (payload : SharedGroupsPayload)
      → (begin_toggle r board).1 ≡ some payload
      → IsPermitted r payload
  unfolding begin_toggle
  begin_toggle-IsPermitted r board payload =
      if_cases {A = Board P S C × Option SharedGroupsPayload}
        (λ x. x.1 ≡ some payload → IsPermitted r payload)
        (not (non_empty (upper_key r.epic_key)) || not (non_empty (or_empty r.active_group_id)))
        (λ _ h. absurd cc)
        (λ _.
          if_cases {A = Board P S C × Option SharedGroupsPayload}
            (λ x. x.1 ≡ some payload → IsPermitted r payload) (not r.can_edit_shared_configuration)
            (λ _ h. absurd cc)
            (λ may.
              if_cases {A = Board P S C × Option SharedGroupsPayload}
                (λ x. x.1 ≡ some payload → IsPermitted r payload)
                (r.show_group_manage && r.is_group_draft_dirty) (λ _ h. absurd cc)
                (λ clean h.
                  subst (IsPermitted r) (send_toggled-some _ (toggled_of r) board payload h)
                    (permitted r (ground (arith, may)) clean))))
