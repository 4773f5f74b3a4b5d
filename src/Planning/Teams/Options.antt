-- ===== src/Planning/Teams/Options.antt =====
-- The teams that a scope offers.
use jira_execution_planner.Base.{
  ◌≡◌, refl, ap, true, Option, List, [], ◌∷◌, inl, inr, arith, Bool-cases, if◌then◌else◌, map,
}
use jira_execution_planner.Base.Lists.{
  filter, includes, non_empty, All, Distinct, unique-Distinct, unique_from, unique, All-unique_from,
  filter-All,
}
use jira_execution_planner.Base.Text.{Text, text, text_equality, trim, trimmed, or_empty}
use jira_execution_planner.Base.Dict.{Dict}
use jira_execution_planner.Planning.Teams.{
  TeamInfo, TeamOption, all_id, or_text, id_set, task_names, team_option, task_team, task_teams,
  build_team_options_for_scope,
}

abbrev pub ids : List TeamOption → List Text
ids options = map (λ o. o.id) options

-- An option has an id and a name to show.
pub record IsShown (o : TeamOption) : Type 0 where
  pub has_id : non_empty o.id ≡ true
  pub has_name : non_empty o.name ≡ true

or_text-non_empty : (s d : Text) → non_empty d ≡ true → non_empty (or_text s d) ≡ true
or_text-non_empty [] d h = h
or_text-non_empty (c ∷ s) d h = refl

id_set-All : (ids : List (Option Text)) → All (λ id. non_empty id ≡ true) (id_set ids)
unfolding id_set
id_set-All ids =
    All-unique_from (λ id. non_empty id ≡ true) [] (filter non_empty (map trimmed ids))
      (filter-All non_empty (map trimmed ids))

id_set-Distinct : (ids : List (Option Text)) → Distinct (id_set ids)
unfolding id_set
id_set-Distinct ids = unique-Distinct (filter non_empty (map trimmed ids))

module _ (lookup_names names : Dict Text) where
  ids-team_option : (l : List Text) → ids (map (team_option lookup_names names) l) ≡ l
  unfolding team_option
  ids-team_option [] = refl
  ids-team_option (x ∷ l) = ap (λ r. x ∷ r) (ids-team_option l)

  team_option-IsShown :
      (l : List Text)
      → All (λ id. non_empty id ≡ true) l
      → All IsShown (map (team_option lookup_names names) l)
  unfolding team_option
  team_option-IsShown [] h = tt
  team_option-IsShown (x ∷ l) h =
      (record { has_id = h.0; has_name = or_text-non_empty _ x h.0 }, team_option-IsShown l h.1)

task_team-IsShown : (team : TeamInfo) → IsShown (task_team team)
unfolding task_team
task_team-IsShown team =
    let shown =
      or_text-non_empty (trim (or_text (or_empty team.id) (text "unknown"))) (text "unknown")
        refl in
    record { has_id = shown; has_name = or_text-non_empty _ _ shown }

task_teams-IsShown :
    (seen : List Text) (teams : List TeamInfo) → All IsShown (task_teams seen teams)
unfolding task_teams
task_teams-IsShown seen [] = tt
task_teams-IsShown seen (team ∷ teams) = elim (Bool-cases (includes (task_team team).id seen)) [
  | inl old ↦ rw old (task_teams-IsShown seen teams)
  | inr new ↦ rw new (task_team-IsShown team, task_teams-IsShown ((task_team team).id ∷ seen) teams)
]

-- The ids of the task teams are those of the tasks, each once, in order of first occurrence.
ids-task_teams :
    (seen : List Text) (teams : List TeamInfo)
    → ids (task_teams seen teams) ≡ unique_from seen (ids (map task_team teams))
unfolding task_teams unique_from
ids-task_teams seen [] = refl
ids-task_teams seen (team ∷ teams) =
    ground (arith, ids-task_teams seen teams, ids-task_teams ((task_team team).id ∷ seen) teams)

module _ {ℓ} {Task : Type ℓ} (get_team_info : Task → TeamInfo) (tasks : List Task)
    (group : List (Option Text)) (team_name_lookup : Dict Text) where
  -- The ids to offer: the group's own ids if it has any, else those of the tasks.
  abbrev pub offered : List Text
  offered =
      if non_empty (id_set group)
      then id_set group
      else unique (ids (map task_team (map get_team_info tasks)))

  abbrev pub options : List TeamOption
  options = build_team_options_for_scope get_team_info tasks group team_name_lookup

  -- The options are `all`, and then one for each id to offer, in order, no id twice.
  pub ids-build_team_options_for_scope : (ids options ≡ all_id ∷ offered) × Distinct offered
  unfolding build_team_options_for_scope
  ids-build_team_options_for_scope = elim (Bool-cases (non_empty (id_set group))) [
    | inl configured ↦ rw configured (
      ap (λ l. all_id ∷ l)
          (ids-team_option team_name_lookup (task_names [] (map get_team_info tasks))
            (id_set group)),
      id_set-Distinct group,
    )
    | inr free ↦ rw free (
      ap (λ l. all_id ∷ l) (ids-task_teams [] (map get_team_info tasks)),
      unique-Distinct (ids (map task_team (map get_team_info tasks))),
    )
  ]

  -- Every option has an id and a name to show, whatever the catalog and the tasks say.
  pub build_team_options_for_scope-IsShown : All IsShown options
  unfolding build_team_options_for_scope
  build_team_options_for_scope-IsShown = elim (Bool-cases (non_empty (id_set group))) [
    | inl configured ↦ rw configured (
      record { has_id = refl; has_name = refl },
      team_option-IsShown team_name_lookup (task_names [] (map get_team_info tasks)) (id_set group)
          (id_set-All group),
    )
    | inr free ↦
        rw free (
          record { has_id = refl; has_name = refl },
          task_teams-IsShown [] (map get_team_info tasks),
        )
  ]
