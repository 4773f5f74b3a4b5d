-- ===== src/FuturePlanning/Teams.antt =====
-- The teams under which an epic is shown.
use jira_execution_planner.Base.{
  ◌≡◌, ap, true, false, ◌&&◌, ◌||◌, Option, some, List, [], ◌∷◌, map, arith, if◌then◌else◌,
  if_cases, Bool-cases, inl, inr, ltb,
}
use jira_execution_planner.Base.Lists.{filter, any, includes, length, non_empty, All, filter-All}
use jira_execution_planner.Base.Text.{Text, text_beq_iff, text_equality, trim}
use jira_execution_planner.Base.Dict.{Dict}
use jira_execution_planner.Planning.State.Normal.{IsKey}
use jira_execution_planner.FuturePlanning.{
  PlannedEpic, PlannedTeam, TeamNames, get_single_selected_team_id, get_raw_epic_team_info,
  get_matched_planning_team_ids, selected_team, matched_team, get_future_planning_epic_team_infos,
  epic_matches_future_planning_team_selection,
}

-- The team has an id that is selected.
abbrev pub IsSelected : List Text → PlannedTeam → Type 0
IsSelected ids team = includes team.id ids ≡ true

module _ (fallback : Text) (names : TeamNames) (resolve : Option (Text → Option Text)) where
  matched-IsSelected :
      (ids matched : List Text)
      → All (λ id. includes id ids ≡ true) matched
      → All (IsSelected ids) (map (matched_team fallback names resolve) matched)
  unfolding matched_team
  matched-IsSelected ids [] h = tt
  matched-IsSelected ids (id ∷ matched) h = (h.0, matched-IsSelected ids matched h.1)

  -- With several teams selected, a matching epic without a matching visible label matches by its
  -- own team.
  several-IsSelected :
      (epic : PlannedEpic) (ids matched : List Text)
      → ((non_empty (get_raw_epic_team_info epic).id
            && includes (get_raw_epic_team_info epic).id ids)
          || any (λ id. includes id ids) matched)
        ≡ true
      → non_empty (filter (λ id. includes id ids) matched) ≡ false
      → includes (get_raw_epic_team_info epic).id ids ≡ true
  several-IsSelected epic ids [] h e = ground (arith, h)
  several-IsSelected epic ids (id ∷ matched) h e = elim (Bool-cases (includes id ids)) [
    | inl m ↦ absurd (ground (arith, m, e))
    | inr m ↦ several-IsSelected epic ids matched (ground (arith, h, m)) (ground (arith, e, m))
  ]

  -- With some teams selected, by trimmed ids that are not empty, an epic that matches the selection
  -- is shown under selected teams only.
  pub infos-IsSelected :
      (epic : PlannedEpic) (ids : List Text) (team_labels : Dict (Option Text))
      → All IsKey ids
      → epic_matches_future_planning_team_selection epic false (some ids) team_labels ≡ true
      → All
          (IsSelected ids)
          (get_future_planning_epic_team_infos fallback names resolve epic (some ids) team_labels)
  unfolding epic_matches_future_planning_team_selection get_future_planning_epic_team_infos
      get_single_selected_team_id selected_team
  infos-IsSelected epic [] team_labels k h = absurd (ground (arith, h))
  infos-IsSelected epic (id ∷ []) team_labels k h =
      if_cases (All (IsSelected (id ∷ []))) (non_empty (trim id))
        (λ _. (ground (arith, k.0.trimmed_key, text_beq_iff id (trim id)), tt))
        (λ e. absurd (ground (arith, e, k.0.trimmed_key, k.0.filled, ap non_empty k.0.trimmed_key)))
  infos-IsSelected epic (id ∷ other ∷ ids) team_labels k h =
      let raw = get_raw_epic_team_info epic in
      let matched = get_matched_planning_team_ids epic team_labels in
      let visible = filter (λ i. includes i (id ∷ other ∷ ids)) matched in
      if_cases
        (λ (shown : List Text).
          All (IsSelected (id ∷ other ∷ ids))
            (if non_empty shown then map (matched_team fallback names resolve) shown else raw ∷ []))
        (ltb 1 (length (id ∷ other ∷ ids)))
        (λ _.
          if_cases (All (IsSelected (id ∷ other ∷ ids))) (non_empty visible)
            (λ _. matched-IsSelected (id ∷ other ∷ ids) visible (filter-All _ matched))
            (λ e. (several-IsSelected epic (id ∷ other ∷ ids) matched (ground (arith, h)) e, tt)))
        (λ e. absurd (ground (arith, e)))
