-- ===== src/Epm/SubGoals.antt =====
-- The sub-goals of the EPM scope: their keys, the selection of the tabs, and the readiness of the
-- configuration (the end of frontend/src/epm/epmProjectUtils.mjs).
pub mod Selection
pub mod Keys
pub mod Undo
use jira_execution_planner.Base.{
  ℕ, Bool, true, false, ◌&&◌, not, Option, none, some, List, [], ◌∷◌, ◌++◌, if◌then◌else◌, nat_beq,
}
use jira_execution_planner.Base.Lists.{filter, includes, length, non_empty}
use jira_execution_planner.Base.Text.{Text, text, text_beq, text_equality, upper_key, trimmed, join}

pub record Scope : Type 0 where
  pub root_goal_key : Option Text
  -- missing or not an array is `none`
  pub sub_goal_keys : Option (List (Option Text))
  pub sub_goal_key : Option Text

pub record Config : Type 0 where
  pub scope : Option Scope
  pub label_prefix : Option Text

unfoldable pub normalize_epm_settings_key_part : Option Text → Text
normalize_epm_settings_key_part value = upper_key value

-- The loop over the values; `normalized` has the members of the set `seen`.
unfoldable pub push_keys : List Text → List (Option Text) → List Text
unfolding normalize_epm_settings_key_part
push_keys normalized [] = normalized
push_keys normalized (value ∷ values) =
    let key = normalize_epm_settings_key_part value in
    let skipped = push_keys normalized values in
    let pushed = push_keys (normalized ++ key ∷ []) values in
    if not (non_empty key) then skipped else if includes key normalized then skipped else pushed

abbrev pub listed_keys : Option (List (Option Text)) → Option Text → List (Option Text)
listed_keys none key = key ∷ []
listed_keys (some []) key = key ∷ []
listed_keys (some (v ∷ values)) key = v ∷ values

abbrev pub scope_values : Option Scope → List (Option Text)
scope_values none = none ∷ []
scope_values (some scope) = listed_keys scope.sub_goal_keys scope.sub_goal_key

unfoldable pub normalize_epm_scope_sub_goal_keys : Option Scope → List Text
unfolding push_keys
normalize_epm_scope_sub_goal_keys scope = push_keys [] (scope_values scope)

-- `normalizeEpmScopeSubGoalKeys({ subGoalKeys: keys })`
abbrev pub keys_scope : Option (List (Option Text)) → Option Scope
keys_scope keys = some (record { root_goal_key = none; sub_goal_keys = keys; sub_goal_key = none })

-- `nextSet` after the click
abbrev toggled : Text → List Text → List Text
toggled key set =
    if includes key set then filter (λ k. not (text_beq k key)) set else set ++ key ∷ []

abbrev selected_or : List Text → List Text → List Text
selected_or [] saved = saved
selected_or (k ∷ selected) saved = k ∷ selected

unfoldable pub next_selection : List Text → List Text → Text → List Text
next_selection saved selected clicked =
    let set = toggled clicked (selected_or selected saved) in
    let next = filter (λ k. includes k set) saved in
    if not (non_empty clicked && includes clicked saved)
    then selected
    else if nat_beq (length next) (length saved)
    then []
    else next

unfoldable pub get_next_epm_sub_goal_selection :
    Option (List (Option Text)) → Option (List (Option Text)) → Option Text → List Text
unfolding normalize_epm_scope_sub_goal_keys next_selection
get_next_epm_sub_goal_selection saved_keys selected_keys clicked_key =
    let saved = normalize_epm_scope_sub_goal_keys (keys_scope saved_keys) in
    let selected =
      filter (λ k. includes k saved)
        (normalize_epm_scope_sub_goal_keys (keys_scope selected_keys)) in
    next_selection saved selected (normalize_epm_settings_key_part clicked_key)

unfoldable pub normalize_epm_label_prefix : Config → Text
normalize_epm_label_prefix config = trimmed config.label_prefix

unfoldable pub is_epm_projects_config_ready : Config → Bool
unfolding normalize_epm_scope_sub_goal_keys normalize_epm_label_prefix
is_epm_projects_config_ready config =
    non_empty (normalize_epm_scope_sub_goal_keys config.scope)
    && non_empty (normalize_epm_label_prefix config)

pub data Prerequisite : Type 0 where
  sub_goal label_prefix : Prerequisite

unfoldable pub get_epm_project_prerequisites : Config → List Prerequisite
unfolding normalize_epm_scope_sub_goal_keys normalize_epm_label_prefix
get_epm_project_prerequisites config =
    (if non_empty (normalize_epm_scope_sub_goal_keys config.scope) then [] else sub_goal ∷ [])
    ++ (if non_empty (normalize_epm_label_prefix config) then [] else label_prefix ∷ [])

abbrev root_goal_key_of : Option Scope → Option Text
root_goal_key_of none = none
root_goal_key_of (some scope) = scope.root_goal_key

unfoldable pub get_epm_settings_projects_cache_key : Config → Text
unfolding is_epm_projects_config_ready normalize_epm_settings_key_part
get_epm_settings_projects_cache_key config =
    if is_epm_projects_config_ready config
    then join (text "::") (
        normalize_epm_settings_key_part (root_goal_key_of config.scope)
        ∷ join (text ",") (normalize_epm_scope_sub_goal_keys config.scope)
        ∷ normalize_epm_label_prefix config
        ∷ [])
    else []
