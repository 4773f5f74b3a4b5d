-- ===== src/Planning/Teams/Tests.antt =====
-- The team selection on small inputs.
use jira_execution_planner.Base.{
  ◌≡◌, refl, ◌↔◌, Option, none, some, List, [], ◌∷◌, not, true, if◌then◌else◌, ◌||◌,
}
use jira_execution_planner.Base.Lists.{includes, non_empty, unique_from}
use jira_execution_planner.Base.Text.{Text, text, text_equality, text_beq, trim, trimmed}
use jira_execution_planner.Base.Dict.{lookup, insert}
use jira_execution_planner.Planning.Teams.{
  TeamsValue, many, single, absent, TeamInfo, all_id, all_only, normalize_selected_teams, id_set,
  sanitize_selected_teams_for_scope, selected_team_selections_equal, task_names, team_option,
  task_team, task_teams, build_team_options_for_scope,
}
use jira_execution_planner.Planning.Teams.Sanitize.{
  in_scope, sanitize_selected_teams_for_scope_lem, selected_team_selections_equal_iff,
}
use jira_execution_planner.Planning.Teams.Options.{ids, options}

program : Unit {0}
unfolding normalize_selected_teams id_set sanitize_selected_teams_for_scope
    selected_team_selections_equal task_names team_option task_team task_teams
    build_team_options_for_scope text_beq trim trimmed unique_from lookup insert
program = tt

abbrev selection : TeamsValue
selection = many (text "t1" ∷ text "t2" ∷ text "t9" ∷ [])

abbrev group : List (Option Text)
group = some (text "t1") ∷ some (text " t2 ") ∷ none ∷ some (text "t3") ∷ []

abbrev available : List (Option Text)
available = some (text "t2") ∷ some (text "t3") ∷ []

sanitize-selection : sanitize_selected_teams_for_scope selection group available ≡ text "t2" ∷ []
unfolding program
sanitize-selection = refl

sanitize_out_of_scope :
    sanitize_selected_teams_for_scope (single (text "t9")) group available ≡ all_only
unfolding program
sanitize_out_of_scope = refl

abbrev tasks : List TeamInfo
tasks =
    record { id = some (text "t1"); name = some (text "One") }
    ∷ record { id = none; name = none }
    ∷ record { id = some (text "t1"); name = some (text "Uno") }
    ∷ []

options_of_tasks : ids (options (λ t. t) tasks [] []) ≡ text "all" ∷ text "t1" ∷ text "unknown" ∷ []
unfolding program
options_of_tasks = refl

sanitize_lem_example : sanitize_selected_teams_for_scope selection group available ≡ (
    if includes all_id (normalize_selected_teams selection)
      || not (non_empty (in_scope selection group available))
    then all_only
    else in_scope selection group available)
sanitize_lem_example = sanitize_selected_teams_for_scope_lem selection group available

selections_equal_iff_example :
    (selected_team_selections_equal absent (single (text "all")) ≡ true)
    ↔ (normalize_selected_teams absent ≡ normalize_selected_teams (single (text "all")))
selections_equal_iff_example = selected_team_selections_equal_iff absent (single (text "all"))
