-- ===== src/Groups/Visible.antt =====
-- The groups that the controls offer, and the active one among them.
use jira_execution_planner.Base.{
  ◌≡◌, refl, ap, ◌∙◌, sym, true, false, ◌&&◌, ◌||◌, not, Option, none, some, List, [], ◌∷◌, ◌++◌,
  map, arith, Bool-cases, inl, inr, if_cases, if◌then◌else◌,
}
use jira_execution_planner.Base.Lists.{
  filter, any, includes, non_empty, unique, All, includes-append, includes-unique, All_of_includes,
  All-of_members,
}
use jira_execution_planner.Base.Text.{
  Text, text_equality, text_beq, text_beq_iff, trim, trimmed, trim_idem, or_empty,
}
use jira_execution_planner.Planning.State.Normal.{IsKey, filter-IsKey}
use jira_execution_planner.Groups.{
  Group, GroupsConfig, Preferences, unique_ids, group_ids, add_known, effective_visible_group_ids,
  visible_groups_for_controls, resolve_visible_active_group_id, first_of,
}

ids_of-trim : (groups : List Group) → All (λ k. trim k ≡ k) (map (λ g. trimmed g.id) groups)
unfolding trimmed
ids_of-trim [] = tt
ids_of-trim (g ∷ groups) = (trim_idem (or_empty g.id), ids_of-trim groups)

group_ids-IsKey : (groups : List Group) → All IsKey (group_ids groups)
unfolding group_ids
group_ids-IsKey groups = filter-IsKey (map (λ g. trimmed g.id) groups) (ids_of-trim groups)

includes-add_known :
    (x : Text) (known result wanted : List Text)
    → includes x (add_known known result wanted)
      ≡ (includes x result || (includes x known && includes x wanted))
unfolding add_known
includes-add_known x known result [] = ground arith
includes-add_known x known result (id ∷ wanted) = elim (Bool-cases (text_beq id x)) [
  | inl same ↦
      let q : includes id known ≡ includes x known =
        ap (λ y. includes y known) ((text_beq_iff id x).0 same) in
      let r : includes id result ≡ includes x result =
        ap (λ y. includes y result) ((text_beq_iff id x).0 same) in
      ground (
        arith,
        includes-add_known x known result wanted,
        includes-add_known x known (result ++ id ∷ []) wanted,
        includes-append x result (id ∷ []),
      )
  | inr differs ↦ ground (
    arith,
    includes-add_known x known result wanted,
    includes-add_known x known (result ++ id ∷ []) wanted,
    includes-append x result (id ∷ []),
  )
]

-- The list that `result` starts with in `effectiveVisibleGroupIds`.
includes-default :
    (x d : Text) (ids : List Text)
    → All IsKey ids
    → includes x (if non_empty d && includes d ids then d ∷ [] else [])
      ≡ (text_beq d x && includes x ids)
includes-default x d ids h = elim (Bool-cases (includes d ids)) [
  | inl m ↦
      let filled = (All_of_includes IsKey d ids h m).filled in
      ground (
        arith,
        m,
        filled,
        λ (e : text_beq d x ≡ true). ap (λ y. includes y ids) ((text_beq_iff d x).0 e),
      )
  | inr m ↦
      ground
        (arith, m, λ (e : text_beq d x ≡ true). ap (λ y. includes y ids) ((text_beq_iff d x).0 e))
]

-- A group id is effectively visible exactly if no onboarding is required, the id is known, and it
-- is the default, or wanted, or the preferences were never customised.
pub includes-effective_visible_group_ids :
    (config : GroupsConfig) (preferences : Preferences) (x : Text)
    → includes x (effective_visible_group_ids config preferences) ≡ (
        not preferences.onboarding_required
        && (includes x (group_ids config.groups)
            && (not preferences.customized
                || (text_beq (trimmed config.default_group_id) x
                    || includes x (unique_ids preferences.visible_group_ids)))))
unfolding effective_visible_group_ids
includes-effective_visible_group_ids config preferences x = ground (
  arith,
  includes-add_known x (group_ids config.groups)
      (if non_empty (trimmed config.default_group_id)
          && includes (trimmed config.default_group_id) (group_ids config.groups)
        then trimmed config.default_group_id ∷ []
        else [])
      (unique_ids preferences.visible_group_ids),
  includes-default x (trimmed config.default_group_id) (group_ids config.groups)
      (group_ids-IsKey config.groups),
)

effective-IsKey :
    (config : GroupsConfig) (preferences : Preferences)
    → All IsKey (effective_visible_group_ids config preferences)
effective-IsKey config preferences =
    All-of_members (effective_visible_group_ids config preferences) (λ x m.
      All_of_includes IsKey x (group_ids config.groups) (group_ids-IsKey config.groups)
        (ground (arith, includes-effective_visible_group_ids config preferences x)))

kept_ids :
    (ids : List Text)
    → All IsKey ids
    → filter non_empty (map trimmed (map (λ id. some id) ids)) ≡ ids
unfolding trimmed
kept_ids [] h = refl
kept_ids (id ∷ ids) h = rw h.0.trimmed_key (rw h.0.filled (ap (λ l. id ∷ l) (kept_ids ids h.1)))

includes-unique_ids :
    (x : Text) (ids : List Text)
    → All IsKey ids
    → includes x (unique_ids (some (map (λ id. some id) ids))) ≡ includes x ids
unfolding unique_ids
includes-unique_ids x ids h =
    ap (λ l. includes x (unique l)) (kept_ids ids h) ∙ includes-unique x ids

-- One of the ids, or none if there are none.
abbrev pub IsOneOf : List Text → Option Text → Type 0
IsOneOf ids none = ids ≡ []
IsOneOf ids (some id) = includes id ids ≡ true

first_of-IsOneOf : (ids : List Text) → IsOneOf ids (first_of ids)
first_of-IsOneOf [] = refl
first_of-IsOneOf (id ∷ ids) = ground (arith, text_beq_iff id id)

pub resolve-IsOneOf :
    (config : GroupsConfig) (visible : Option (List (Option Text))) (current : Option Text)
    → IsOneOf (unique_ids visible) (resolve_visible_active_group_id config visible current)
unfolding resolve_visible_active_group_id
resolve-IsOneOf config visible current =
    let ids = unique_ids visible in
    let active = trimmed current in
    let default_id = trimmed config.default_group_id in
    if_cases (IsOneOf ids) (non_empty active && includes active ids) (λ h. ground (arith, h))
      (λ _.
        if_cases (IsOneOf ids) (non_empty default_id && includes default_id ids)
          (λ h. ground (arith, h)) (λ _. first_of-IsOneOf ids))

no_members : (ids : List Text) → ((x : Text) → includes x ids ≡ false) → ids ≡ []
no_members [] h = refl
no_members (id ∷ ids) h = absurd (ground (arith, h id, text_beq_iff id id))

none_kept : (groups : List Group) → filter (λ g. includes (trimmed g.id) []) groups ≡ []
none_kept [] = refl
none_kept (g ∷ groups) = none_kept groups

some_kept :
    (id : Text) (ids : List Text) (groups : List Group)
    → includes id (group_ids groups) ≡ true
    → includes id ids ≡ true
    → any (λ g. text_beq (trimmed g.id) id) (filter (λ g. includes (trimmed g.id) ids) groups)
      ≡ true
unfolding group_ids
some_kept id ids [] m k = cc
some_kept id ids (g ∷ groups) m k = elim (Bool-cases (text_beq (trimmed g.id) id)) [
  | inl same ↦
      let q : includes (trimmed g.id) ids ≡ includes id ids =
        ap (λ y. includes y ids) ((text_beq_iff (trimmed g.id) id).0 same) in
      ground (arith, q)
  | inr differs ↦ ground (arith, some_kept id ids groups)
]

-- Whether the id is the id (trimmed) of one of the groups; none only if there are no groups.
abbrev pub IsOffered : List Group → Option Text → Type 0
IsOffered groups none = groups ≡ []
IsOffered groups (some id) = any (λ g. text_beq (trimmed g.id) id) groups ≡ true

IsOffered-of_member :
    (config : GroupsConfig) (preferences : Preferences) (o : Option Text)
    → IsOneOf
        (unique_ids (some (map (λ id. some id) (effective_visible_group_ids config preferences))))
        o
    → IsOffered (visible_groups_for_controls config preferences) o
unfolding visible_groups_for_controls
IsOffered-of_member config preferences none h =
    let ids = effective_visible_group_ids config preferences in
    let empty : ids ≡ [] = no_members ids (λ x.
      sym (includes-unique_ids x ids (effective-IsKey config preferences)) ∙ ap (includes x) h) in
    ap (λ l. filter (λ g. includes (trimmed g.id) l) config.groups) empty ∙ none_kept config.groups
IsOffered-of_member config preferences (some id) h =
    let ids = effective_visible_group_ids config preferences in
    let m = sym (includes-unique_ids id ids (effective-IsKey config preferences)) ∙ h in
    some_kept id ids config.groups
      (ground (arith, m, includes-effective_visible_group_ids config preferences id)) m

-- The active group resolved from the effectively visible ids is one of the groups that the
-- controls show, whatever was active before; none is active only if none is shown.
pub resolve-IsOffered :
    (config : GroupsConfig) (preferences : Preferences) (current : Option Text)
    → IsOffered (visible_groups_for_controls config preferences) (
        resolve_visible_active_group_id config
          (some (map (λ id. some id) (effective_visible_group_ids config preferences)))
          current)
unfolding visible_groups_for_controls
resolve-IsOffered config preferences current =
    IsOffered-of_member config preferences (resolve_visible_active_group_id config visible current)
      (resolve-IsOneOf config visible current)
  where
    visible : Option (List (Option Text))
    visible = some (map (λ id. some id) (effective_visible_group_ids config preferences))
