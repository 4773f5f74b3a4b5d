-- ===== src/Groups/Exclude.antt =====
-- What the excluded-capacity toggle does to the groups.
use jira_execution_planner.Base.{
  ◌≡◌, ap, ◌∙◌, Bool, true, false, ◌||◌, not, Option, none, some, List, [], ◌∷◌, map, arith,
  Bool-cases, inl, inr, if_cases,
}
use jira_execution_planner.Base.Lists.{any, non_empty, All}
use jira_execution_planner.Base.Text.{Text, text_equality, text_beq_iff, trimmed, upper_key}
use jira_execution_planner.Groups.{Group, GroupsConfig}
use jira_execution_planner.Groups.Toggle.{
  Toggled, is_target, is_blocked, toggle_group, blocked_text, excluded_after,
  build_groups_config_with_excluded_capacity_toggle,
}
use jira_execution_planner.Groups.Keys.{IsEpicKey}
use jira_execution_planner.Groups.Flip.{
  Pointwise, excludes, has_ad_hoc, Flipped, toggle_group-Flipped, toggled-Flipped,
  upper_key-IsEpicKey,
}

-- What holds of the branch that changes the groups, and of any that leaves the configuration,
-- holds of the result.
pub toggle_cases {ℓ} :
    (P : Toggled → Type ℓ) (config : GroupsConfig) (group_id epic_key : Option Text)
    → ((error : Option Text)
        → P (record { config = config; changed = false; next_excluded = false; error = error }))
    → ((next_excluded : Bool)
        → non_empty (upper_key epic_key) ≡ true
        → any (is_blocked (trimmed group_id) (upper_key epic_key)) config.groups ≡ false
        → P (record {
          config = record config {
            groups = map (toggle_group (trimmed group_id) (upper_key epic_key)) config.groups;
          };
          changed = true;
          next_excluded = next_excluded;
          error = none;
        }))
    → P (build_groups_config_with_excluded_capacity_toggle config group_id epic_key)
unfolding build_groups_config_with_excluded_capacity_toggle
toggle_cases P config group_id epic_key kept toggled =
    let target = trimmed group_id in
    let key = upper_key epic_key in
    if_cases P (not (non_empty target) || not (non_empty key)) (λ _. kept none)
      (λ named.
        if_cases P (any (is_blocked target key) config.groups) (λ _. kept (some (blocked_text key)))
          (λ free.
            if_cases P (not (any (is_target target) config.groups)) (λ _. kept none)
              (λ _.
                toggled (excluded_after target key false config.groups) (ground (arith, named))
                  free)))

-- If the toggle changes the configuration, then in every group with the id (trimmed) the epic
-- (trimmed, in upper case) is excluded exactly if it was not, and every other epic, every other
-- field and every other group stays.
pub toggle-Flipped :
    (config : GroupsConfig) (group_id epic_key : Option Text)
    → (build_groups_config_with_excluded_capacity_toggle config group_id epic_key).changed ≡ true
    → Pointwise
        (Flipped (trimmed group_id) (upper_key epic_key))
        config.groups
        (build_groups_config_with_excluded_capacity_toggle config group_id epic_key).config.groups
toggle-Flipped config group_id epic_key =
    toggle_cases
      (λ t.
        t.changed ≡ true
        → Pointwise (Flipped (trimmed group_id) (upper_key epic_key)) config.groups t.config.groups)
      config group_id epic_key (λ error h. cc)
      (λ next named free h.
        toggled-Flipped (trimmed group_id) (upper_key epic_key) config.groups
          (upper_key-IsEpicKey epic_key named))

flips_back :
    (target key k : Text) (x y z : Group)
    → Flipped target key x y
    → Flipped target key y z
    → excludes k z ≡ excludes k x
unfolding is_target
flips_back target key k x y z f h =
    let same : is_target target y ≡ is_target target x =
      ap (λ g. is_target target (record x { id = g.id })) f.rest in
    elim (Bool-cases (is_target target x)) [
      | inl here ↦ ground (
        arith,
        f.flips here k,
        f.flips here key,
        h.flips (same ∙ here) k,
        text_beq_iff k key,
        text_beq_iff key key,
      )
      | inr away ↦ ap (excludes k) (h.others (same ∙ away) ∙ f.others away)
    ]

Flipped-twice :
    (target key : Text) (xs ys zs : List Group)
    → Pointwise (Flipped target key) xs ys
    → Pointwise (Flipped target key) ys zs
    → Pointwise (λ g g'. (k : Text) → excludes k g' ≡ excludes k g) xs zs
Flipped-twice target key [] [] [] f h = tt
Flipped-twice target key [] [] (z ∷ zs) f h = elim h [ ]
Flipped-twice target key [] (y ∷ ys) zs f h = elim f [ ]
Flipped-twice target key (x ∷ xs) [] zs f h = elim f [ ]
Flipped-twice target key (x ∷ xs) (y ∷ ys) [] f h = elim h [ ]
Flipped-twice target key (x ∷ xs) (y ∷ ys) (z ∷ zs) f h =
    (λ k. flips_back target key k x y z f.0 h.0, Flipped-twice target key xs ys zs f.1 h.1)

-- No epic is both excluded and ad hoc in the group.
abbrev pub IsClear : Group → Type 0
IsClear g = (k : Text) → excludes k g ≡ true → has_ad_hoc k g ≡ false

toggle_group-IsClear :
    (target key : Text) (g : Group)
    → IsEpicKey key
    → is_blocked target key g ≡ false
    → IsClear g
    → IsClear (toggle_group target key g)
unfolding is_blocked
toggle_group-IsClear target key g i free h k e =
    let f = toggle_group-Flipped target key g i in
    let same : has_ad_hoc k (toggle_group target key g) ≡ has_ad_hoc k g =
      ap (has_ad_hoc k) f.rest in
    elim (Bool-cases (is_target target g)) [
      | inl here ↦ same ∙ ground (arith, f.flips here k, h k, text_beq_iff k key)
      | inr away ↦ same ∙ h k (ground (arith, ap (excludes k) (f.others away)))
    ]

toggled-IsClear :
    (target key : Text) (groups : List Group)
    → IsEpicKey key
    → any (is_blocked target key) groups ≡ false
    → All IsClear groups
    → All IsClear (map (toggle_group target key) groups)
toggled-IsClear target key [] i free h = tt
toggled-IsClear target key (g ∷ groups) i free h = (
  toggle_group-IsClear target key g i (ground arith) h.0,
  toggled-IsClear target key groups i (ground arith) h.1,
)

-- Two toggles of the same epic in the same group that both change the configuration leave each
-- group with the excluded epics that it had.
pub toggle_twice :
    (config : GroupsConfig) (group_id epic_key : Option Text)
    → let once = build_groups_config_with_excluded_capacity_toggle config group_id epic_key in
      let again = build_groups_config_with_excluded_capacity_toggle once.config group_id epic_key in
      once.changed ≡ true
      → again.changed ≡ true
      → Pointwise
          (λ g g'. (k : Text) → excludes k g' ≡ excludes k g)
          config.groups
          again.config.groups
toggle_twice config group_id epic_key h k =
    let once = build_groups_config_with_excluded_capacity_toggle config group_id epic_key in
    let again = build_groups_config_with_excluded_capacity_toggle once.config group_id epic_key in
    Flipped-twice (trimmed group_id) (upper_key epic_key) config.groups once.config.groups
      again.config.groups (toggle-Flipped config group_id epic_key h)
      (toggle-Flipped once.config group_id epic_key k)

-- If no group has an epic that is both excluded and ad hoc, no group has one after a toggle,
-- whatever it toggles.
pub toggle-IsClear :
    (config : GroupsConfig) (group_id epic_key : Option Text)
    → All IsClear config.groups
    → All IsClear
        (build_groups_config_with_excluded_capacity_toggle config group_id epic_key).config.groups
toggle-IsClear config group_id epic_key h =
    toggle_cases (λ t. All IsClear t.config.groups) config group_id epic_key (λ error. h)
      (λ next named free.
        toggled-IsClear (trimmed group_id) (upper_key epic_key) config.groups
          (upper_key-IsEpicKey epic_key named) free h)
