-- ===== src/Groups.antt =====
-- frontend/src/settings/groupVisibilityUtils.js and the normalisation of groupConfigUtils.js:
-- the department groups, the user's preferences, and the groups that the controls offer.
-- Ids, names and labels are strings or missing; a list of ids that is no array is `none`.
pub mod NewId
pub mod Toggle
pub mod Visible
pub mod Keys
pub mod Flip
pub mod Exclude
pub mod Save
pub mod Outcome
pub mod Drafts
pub mod Clean
mod Tests
use jira_execution_planner.Base.{
  ℕ, Bool, true, false, ◌&&◌, not, Option, none, some, List, [], ◌∷◌, ◌++◌, map, nat_beq,
  if◌then◌else◌,
}
use jira_execution_planner.Base.Lists.{filter, any, find, includes, unique, non_empty, head_or}
use jira_execution_planner.Base.Text.{
  Text, text, text_beq, text_equality, trim, trimmed, upper, upper_key, lower, or_empty,
}
use jira_execution_planner.Base.Dict.{Dict, insert}

-- An epic list as it arrives: an array, one string, or something else.
pub data EpicKeys : Type 0 where
  many : List (Option Text) → EpicKeys
  single : Text → EpicKeys
  other : EpicKeys

pub record Group : Type 0 where
  pub id : Option Text
  pub name : Option Text
  pub team_ids : Option (List (Option Text))
  pub missing_info_components : Option (List (Option Text))
  pub missing_info_component : Option Text
  pub excluded_capacity_epics : EpicKeys
  pub ad_hoc_capacity_epics : EpicKeys
  pub team_labels : Dict (Option Text)

pub record Preferences : Type 0 where
  pub preference_exists : Bool
  pub customized : Bool
  pub onboarding_required : Bool
  pub visible_group_ids : Option (List (Option Text))
  pub effective_visible_group_ids : Option (List (Option Text))
  pub active_group_id : Option Text

-- `configRevision` as it arrives. `Number(null)` is 0.
pub data Revision : Type 0 where
  undefined null : Revision
  number : ℕ → Revision

pub record GroupsConfig : Type 0 where
  pub version : Option ℕ
  pub groups : List Group
  pub default_group_id : Option Text
  pub config_revision : Revision
  pub source : Option Text
  pub preferences : Preferences

-- `normalizeId(id)` where the empty string becomes `null`
unfoldable pub id_or_null : Option Text → Option Text
id_or_null id = let t = trimmed id in if non_empty t then some t else none

-- `uniqueIds`
unfoldable pub unique_ids : Option (List (Option Text)) → List Text
unique_ids none = []
unique_ids (some ids) = unique (filter non_empty (map trimmed ids))

unfoldable pub group_ids : List Group → List Text
group_ids groups = filter non_empty (map (λ g. trimmed g.id) groups)

-- The fields that `normalizeGroupPreferences` sets.
unfoldable pub normalize_group_preferences : Preferences → Preferences
normalize_group_preferences p = record p {
  visible_group_ids = some (map (λ id. some id) (unique_ids p.visible_group_ids));
  effective_visible_group_ids =
      some (map (λ id. some id) (unique_ids p.effective_visible_group_ids));
  active_group_id = id_or_null p.active_group_id;
}

unfoldable pub normalize_epic_keys : EpicKeys → List Text
normalize_epic_keys (many values) = unique (filter non_empty (map upper_key values))
normalize_epic_keys (single value) =
    if non_empty (trim value) then unique (filter non_empty (upper_key (some value) ∷ [])) else []
normalize_epic_keys other = []

abbrev pub as_keys : List Text → EpicKeys
as_keys keys = many (map (λ k. some k) keys)

unfoldable pub trimmed_list : List (Option Text) → List (Option Text)
trimmed_list values = map (λ v. some v) (filter non_empty (map trimmed values))

-- `missingInfoComponents`, with the single `missingInfoComponent` of older files
unfoldable pub normalize_components : Option (List (Option Text)) → Option Text → List (Option Text)
normalize_components (some values) component = trimmed_list values
normalize_components none none = []
normalize_components none (some component) =
    if non_empty component then some (trim component) ∷ [] else []

-- `Object.fromEntries` of the trimmed entries whose id and label are not empty
unfoldable pub normalize_labels : Dict (Option Text) → Dict (Option Text) → Dict (Option Text)
normalize_labels done [] = done
normalize_labels done ((team_id, label) ∷ entries) =
    let id = trim team_id in
    let name = trimmed label in
    let kept = normalize_labels (insert id (some name) done) entries in
    let dropped = normalize_labels done entries in
    if non_empty id && non_empty name then kept else dropped

abbrev pub list_or_empty : Option (List (Option Text)) → List (Option Text)
list_or_empty none = []
list_or_empty (some values) = values

unfoldable pub normalize_group : Group → Group
normalize_group g = record {
  id = some (trimmed g.id);
  name = some (trimmed g.name);
  team_ids = some (trimmed_list (list_or_empty g.team_ids));
  missing_info_components =
      some (normalize_components g.missing_info_components g.missing_info_component);
  missing_info_component = none;
  excluded_capacity_epics = as_keys (normalize_epic_keys g.excluded_capacity_epics);
  ad_hoc_capacity_epics = as_keys (normalize_epic_keys g.ad_hoc_capacity_epics);
  team_labels = normalize_labels [] g.team_labels;
}

-- `Number(version) || 1`
abbrev pub version_or_one : Option ℕ → ℕ
version_or_one none = 1
version_or_one (some n) = if nat_beq n 0 then 1 else n

abbrev pub normalize_revision : Revision → Revision
normalize_revision undefined = null
normalize_revision null = number 0
normalize_revision (number n) = number n

unfoldable pub normalize_groups_config : GroupsConfig → GroupsConfig
normalize_groups_config config = record {
  version = some (version_or_one config.version);
  groups =
      filter (λ g. non_empty (trimmed g.id) && non_empty (trimmed g.name))
        (map normalize_group config.groups);
  default_group_id = some (trimmed config.default_group_id);
  config_revision = normalize_revision config.config_revision;
  source = some (trimmed config.source);
  preferences = normalize_group_preferences config.preferences;
}

-- The loop over the wanted ids in `effectiveVisibleGroupIds`; `result` grows at its end.
unfoldable pub add_known : List Text → List Text → List Text → List Text
add_known known result [] = result
add_known known result (id ∷ wanted) =
    let added = add_known known (result ++ id ∷ []) wanted in
    let skipped = add_known known result wanted in
    if includes id known && not (includes id result) then added else skipped

unfoldable pub effective_visible_group_ids : GroupsConfig → Preferences → List Text
effective_visible_group_ids config preferences =
    let ids = group_ids config.groups in
    let default_id = trimmed config.default_group_id in
    if preferences.onboarding_required
    then []
    else if not preferences.customized
    then ids
    else add_known ids
        (if non_empty default_id && includes default_id ids then default_id ∷ [] else [])
        (unique_ids preferences.visible_group_ids)

unfoldable pub visible_groups_for_controls : GroupsConfig → Preferences → List Group
visible_groups_for_controls config preferences =
    let visible = effective_visible_group_ids config preferences in
    filter (λ g. includes (trimmed g.id) visible) config.groups

abbrev pub first_of : List Text → Option Text
first_of [] = none
first_of (id ∷ ids) = some id

unfoldable pub resolve_visible_active_group_id :
    GroupsConfig → Option (List (Option Text)) → Option Text → Option Text
resolve_visible_active_group_id config visible_group_ids current =
    let visible = unique_ids visible_group_ids in
    let active = trimmed current in
    let default_id = trimmed config.default_group_id in
    if non_empty active && includes active visible
    then some active
    else if non_empty default_id && includes default_id visible
    then some default_id
    else first_of visible

-- `applyLocalGroupPreferences`: `saved` is what the browser keeps.
unfoldable pub apply_local_group_preferences :
    GroupsConfig → Option (List (Option Text)) → Option Text → GroupsConfig
apply_local_group_preferences config none saved_active = normalize_groups_config config
apply_local_group_preferences config (some saved_visible) saved_active =
    let normal = normalize_groups_config config in
    let draft : Preferences = record {
      preference_exists = true;
      customized = true;
      onboarding_required = false;
      visible_group_ids = some saved_visible;
      effective_visible_group_ids = none;
      active_group_id = saved_active;
    } in
    let effective = effective_visible_group_ids normal draft in
    let effective_value = some (map (λ id. some id) effective) in
    if text_beq (or_empty normal.source) (text "workspace_db") then normal else record normal {
      preferences = record draft {
        active_group_id = resolve_visible_active_group_id normal effective_value saved_active;
        effective_visible_group_ids = effective_value;
      };
    }

abbrev pub first_id : List Group → Option Text
first_id [] = none
first_id (g ∷ groups) = g.id

-- `resolveInitialGroupId`
unfoldable pub resolve_initial_group_id : GroupsConfig → Option Text
resolve_initial_group_id config =
    let default_id = or_empty config.default_group_id in
    if non_empty default_id && any (λ g. text_beq (or_empty g.id) default_id) config.groups
    then some default_id
    else elim (find (λ g. text_beq (lower (or_empty g.name)) (text "default")) config.groups) [
      | none ↦ first_id config.groups
      | some g ↦ g.id
    ]

-- The body of a PUT of the preferences.
unfoldable pub first_run_visible_ids : Option (List (Option Text)) → Option Text → List Text
first_run_visible_ids selected default_id =
    unique_ids (some (default_id ∷ map (λ id. some id) (unique_ids selected)))

unfoldable pub first_run_active_id : Option (List (Option Text)) → Option Text → Option Text
first_run_active_id selected default_id = elim (unique_ids selected) [
  | [] ↦ id_or_null default_id
  | id ∷ ids ↦ some id
]
