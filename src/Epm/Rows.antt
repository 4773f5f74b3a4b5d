-- ===== src/Epm/Rows.antt =====
-- Rows of the settings table and their drafts, label prefixes, sub-goal names and the boards of an
-- aggregate answer (frontend/src/epm/epmProjectUtils.mjs).
pub mod Mask
use jira_execution_planner.Base.{
  ℕ, zero, suc, ◌≡◌, refl, Bool, true, false, ◌&&◌, not, Option, none, some, List, [], ◌∷◌, ◌++◌,
  map, if◌then◌else◌, nat_beq, arith,
}
use jira_execution_planner.Base.Lists.{length, non_empty}
use jira_execution_planner.Base.Text.{
  Text, text, text_beq, trim, trimmed, or_empty, is_space, trim_start, lower,
}
use jira_execution_planner.Base.Dict.{Dict}
use jira_execution_planner.Epm.{Payload, Project, Board, build_rollup_tree, list_or_empty}
use jira_execution_planner.Epm.Status.{normalize_epm_settings_sort_text, first_of}
use jira_execution_planner.Epm.Flatten.{text_or}
use jira_execution_planner.Epm.SubGoals.{normalize_epm_settings_key_part}

unfoldable pub should_use_epm_sprint : Option Text → Bool
unfolding normalize_epm_settings_sort_text
should_use_epm_sprint tab = text_beq (normalize_epm_settings_sort_text tab) (text "active")

unfoldable pub get_epm_project_identity : Project → Text
get_epm_project_identity project = trimmed project.id

-- `s.endsWith('*')`
abbrev pub ends_with_star : Text → Bool
ends_with_star [] = false
ends_with_star (c ∷ []) = nat_beq c 42
ends_with_star (c ∷ d ∷ s) = ends_with_star (d ∷ s)

-- `s.slice(0, -1)`
abbrev pub but_last : Text → Text
but_last [] = []
but_last (c ∷ []) = []
but_last (c ∷ d ∷ s) = c ∷ but_last (d ∷ s)

-- The loop. Each round shortens the text, so its length is fuel enough.
unfoldable pub drop_stars : ℕ → Text → Text
drop_stars zero prefix = prefix
drop_stars (suc fuel) prefix =
    let rest = drop_stars fuel (trim (but_last prefix)) in
    if ends_with_star prefix then rest else prefix

unfoldable pub normalize_epm_label_prefix_mask : Option Text → Text
unfolding drop_stars
normalize_epm_label_prefix_mask value =
    let prefix = trimmed value in drop_stars (length prefix) prefix

pub record Row : Type 0 where
  pub home_project_id : Option Text
  pub name : Option Text
  pub label : Option Text
  pub home_name : Option Text

unfoldable pub is_empty_custom_epm_project_row : Option Row → Bool
is_empty_custom_epm_project_row none = false
is_empty_custom_epm_project_row (some row) =
    if non_empty (trimmed row.home_project_id)
    then false
    else not (non_empty (trimmed row.name)) && not (non_empty (trimmed row.label))

pub record Draft : Type 0 where
  pub name : Text
  pub label : Text
  pub display_name : Text

abbrev row_or_none : Option Row → (Row → Option Text) → Option Text
row_or_none none field = none
row_or_none (some row) field = field row

abbrev home_field : Option Project → (Project → Option Text) → Option Text
home_field none field = none
home_field (some project) field = field project

-- The fields that `hydrateEpmProjectDraft` sets; it copies the others.
unfoldable pub hydrate_epm_project_draft : Option Row → Option Project → Draft
hydrate_epm_project_draft row home =
    let draft_name = or_empty (row_or_none row (λ r. r.name)) in
    let home_name =
      or_empty (first_of (home_field home (λ p. p.name)) (row_or_none row (λ r. r.home_name))) in
    let draft_label = or_empty (row_or_none row (λ r. r.label)) in
    let home_label = or_empty (home_field home (λ p. p.label)) in
    let name = if non_empty (trim draft_name) then draft_name else home_name in
    record {
      name = name;
      label = if non_empty (trim draft_label) then draft_label else home_label;
      display_name = text_or (some name) home_name;
    }

pub record Entry : Type 0 where
  pub project : Project
  pub rollup : Payload

-- The record of duplicates, which is copied as it stands, is left out. A missing project is one
-- without fields.
pub record Aggregate : Type 0 where
  pub projects : Option (List Entry)
  pub truncated : Bool
  pub fallback : Bool

pub record Boards : Type 0 where
  pub boards : List Board
  pub truncated : Bool
  pub fallback : Bool

unfoldable pub build_aggregate_rollup_boards : Aggregate → Boards
build_aggregate_rollup_boards payload = record {
  boards =
      map (λ e. record { project = e.project; tree = build_rollup_tree e.rollup })
        (list_or_empty payload.projects);
  truncated = payload.truncated;
  fallback = payload.fallback;
}
