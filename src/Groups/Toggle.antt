-- ===== src/Groups/Toggle.antt =====
-- `buildGroupsConfigWithExcludedCapacityToggle` of frontend/src/settings/groupConfigUtils.js, and
-- frontend/src/settings/sharedExcludedCapacityToggle.js, which saves its result.
use jira_execution_planner.Base.{
  Bool, true, false, ◌&&◌, ◌||◌, not, Option, none, some, List, [], ◌∷◌, ◌++◌, map, if◌then◌else◌,
}
use jira_execution_planner.Base.Lists.{filter, any, includes, non_empty, unique}
use jira_execution_planner.Base.Text.{Text, text, text_beq, text_equality, trimmed, upper_key}
use jira_execution_planner.Groups.{Group, GroupsConfig, normalize_epic_keys, as_keys}

pub record Toggled : Type 0 where
  pub config : GroupsConfig
  pub changed : Bool
  pub next_excluded : Bool
  pub error : Option Text

unfoldable pub is_target : Text → Group → Bool
is_target target g = text_beq (trimmed g.id) target

-- The test of `blockedGroup`.
unfoldable pub is_blocked : Text → Text → Group → Bool
is_blocked target key g =
    is_target target g
    && (not (includes key (normalize_epic_keys g.excluded_capacity_epics))
        && includes key (normalize_epic_keys g.ad_hoc_capacity_epics))

-- The keys of a target group, with `key` taken out or put at the end. The loop before it drops
-- blanks and repetitions once more.
unfoldable pub toggled_keys : Text → List Text → List Text
toggled_keys key existing =
    let normalized_existing = unique (filter non_empty existing) in
    if includes key normalized_existing
    then filter (λ k. not (text_beq k key)) normalized_existing
    else normalized_existing ++ key ∷ []

unfoldable pub toggle_group : Text → Text → Group → Group
toggle_group target key g =
    if is_target target g
    then record g {
      excluded_capacity_epics =
          as_keys (toggled_keys key (normalize_epic_keys g.excluded_capacity_epics));
    }
    else g

-- `nextExcluded` after the `map`: that of the last target group.
unfoldable pub excluded_after : Text → Text → Bool → List Group → Bool
excluded_after target key value [] = value
excluded_after target key value (g ∷ groups) =
    excluded_after target key
      (if is_target target g
        then not (includes key (normalize_epic_keys g.excluded_capacity_epics))
        else value)
      groups

abbrev pub blocked_text : Text → Text
blocked_text key =
    key
    ++ text
        " is configured as Ad Hoc capacity for this group. Remove it from Ad Hoc capacity before excluding it."

unfoldable pub build_groups_config_with_excluded_capacity_toggle :
    GroupsConfig → Option Text → Option Text → Toggled
build_groups_config_with_excluded_capacity_toggle config group_id epic_key =
    let target = trimmed group_id in
    let key = upper_key epic_key in
    let unchanged : Toggled = record {
      config = config;
      changed = false;
      next_excluded = false;
      error = none;
    } in
    if not (non_empty target) || not (non_empty key)
    then unchanged
    else if any (is_blocked target key) config.groups
    then record unchanged { error = some (blocked_text key) }
    else if not (any (is_target target) config.groups)
    then unchanged
    else record {
      config = record config { groups = map (toggle_group target key) config.groups };
      changed = true;
      next_excluded = excluded_after target key false config.groups;
      error = none;
    }
