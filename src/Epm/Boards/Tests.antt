-- ===== src/Epm/Boards/Tests.antt =====
-- Orders, search, dates and drafts of boards on small inputs.
use Prim.Native.Nat.{compare, Ordering}
use jira_execution_planner.Base.{
  ◌≡◌, refl, ℕ, ◌+◌, ◌*◌, true, false, Option, none, some, List, [], ◌∷◌, map,
}
use jira_execution_planner.Base.Lists.{filter, length}
use jira_execution_planner.Base.Text.{
  Text, text, text_beq, text_equality, trim, trimmed, lower, upper, upper_key, decimal, digits,
  join,
}
use jira_execution_planner.Base.Dict.{lookup}
use jira_execution_planner.Base.Sort.{SortsTo}
use jira_execution_planner.Base.Comparator.{first_then, key-IsComparator}
use jira_execution_planner.Epm.{Issue, tree, build_rollup_tree, Project, Board}
use jira_execution_planner.Epm.Status.{normalize_epm_settings_status}
use jira_execution_planner.Epm.Flatten.{flatten_epm_rollup_boards_for_dependencies}
use jira_execution_planner.Epm.SubGoals.{label_prefix, get_epm_project_prerequisites}
use jira_execution_planner.Epm.Dates.{format_epm_project_relative_date, filter_epm_projects_for_tab}
use jira_execution_planner.Epm.Boards.{normalize_epm_project_sort, sort_epm_rollup_boards}
use jira_execution_planner.Epm.Boards.Order.{recent_first, promised, sort_epm_rollup_boards-SortsTo}
use jira_execution_planner.Epm.Search.{
  normalize_epm_search_text, collect_epm_issue_search_text, filter_epm_rollup_boards_for_search,
}
use jira_execution_planner.Epm.Search.Found.{
  spaceless, board_says, filter_epm_rollup_boards_for_search_lem,
}
use jira_execution_planner.Epm.Rows.{normalize_epm_label_prefix_mask}
use jira_execution_planner.Epm.Samples.{low_epic, high_epic, payload}

program : Unit {0}
unfolding text_beq normalize_epm_search_text trim trimmed lower upper upper_key decimal digits join
    lookup build_rollup_tree normalize_epm_settings_status
    flatten_epm_rollup_boards_for_dependencies get_epm_project_prerequisites
    format_epm_project_relative_date filter_epm_projects_for_tab normalize_epm_project_sort
    sort_epm_rollup_boards collect_epm_issue_search_text filter_epm_rollup_boards_for_search
    normalize_epm_label_prefix_mask
program = tt

abbrev project : Text → Text → Text → Project
project name state date = record {
  id = some name;
  name = some name;
  label = none;
  display_name = none;
  home_project_id = none;
  state_value = some state;
  state_label = none;
  tab_bucket = none;
  recently_completed = false;
  latest_update_date = some date;
  latest_update_snippet = none;
  latest_update_html = none;
  latest_update_author = none;
  latest_update_url = none;
}

abbrev board_with : Text → Text → Text → List Issue → Board
board_with name state date epics = record {
  project = project name state date;
  tree = tree false [] [] (map (λ i. record { issue = i; stories = [] }) epics) [];
}

abbrev boards : List Board
boards =
    board_with (text "Low") (text "ON_TRACK") (text "2026-05-25") (low_epic ∷ [])
    ∷ board_with (text "Critical") (text "ON_TRACK") (text "2026-05-20") (high_epic ∷ [])
    ∷ board_with (text "Ended") (text "DONE") (text "2026-05-24") []
    ∷ []

-- Days of months of 31 days, enough for dates of one month
abbrev plain_day : ℕ → ℕ → ℕ → ℕ
plain_day year month day = (year * 12 + month) * 31 + day

abbrev today : Option ℕ
today = some (plain_day 2026 5 26)

-- By length
abbrev locale : Text → Text → Ordering
locale a b = compare (length a) (length b)

abbrev names : List Board → List (Option Text)
names bs = map (λ b. b.project.name) bs

by_priority_names :
    names (sort_epm_rollup_boards locale plain_day today boards none)
    ≡ some (text "Ended") ∷ some (text "Critical") ∷ some (text "Low") ∷ []
unfolding program
by_priority_names = refl

by_update_names :
    names (sort_epm_rollup_boards locale plain_day today boards (some (text "updated-desc")))
    ≡ some (text "Ended") ∷ some (text "Low") ∷ some (text "Critical") ∷ []
unfolding program
by_update_names = refl

sort_epm_rollup_boards_example :
    SortsTo
      (first_then
        (recent_first plain_day today)
        (promised plain_day today (normalize_epm_project_sort none)))
      boards
      (sort_epm_rollup_boards locale plain_day today boards none)
sort_epm_rollup_boards_example =
    sort_epm_rollup_boards-SortsTo locale (key-IsComparator length) plain_day today boards none

spaceless_query : spaceless (normalize_epm_search_text (some (text " e-2 "))) ≡ true
unfolding program
spaceless_query = refl

found_names :
    names (filter_epm_rollup_boards_for_search (some boards) (some (text " e-2 ")))
    ≡ some (text "Critical") ∷ []
unfolding program
found_names = refl

filter_epm_rollup_boards_for_search_example :
    filter_epm_rollup_boards_for_search (some boards) (some (text " e-2 "))
    ≡ filter (board_says (normalize_epm_search_text (some (text " e-2 ")))) boards
filter_epm_rollup_boards_for_search_example =
    filter_epm_rollup_boards_for_search_lem boards (some (text " e-2 ")) spaceless_query

on_active_tab :
    map
      (λ p. p.name)
      (filter_epm_projects_for_tab plain_day today (some (map (λ b. b.project) boards)) none)
    ≡ some (text "Low") ∷ some (text "Critical") ∷ some (text "Ended") ∷ []
unfolding program
on_active_tab = refl

six_days_ago :
    format_epm_project_relative_date plain_day today (some (text "2026-05-20T10:00Z"))
    ≡ text "6 days ago"
unfolding program
six_days_ago = refl

mask_without_stars : normalize_epm_label_prefix_mask (some (text " rnd_* **")) ≡ text "rnd_"
unfolding program
mask_without_stars = refl

prefix_missing :
    get_epm_project_prerequisites (record {
      scope =
          some (record {
            root_goal_key = none;
            sub_goal_keys = none;
            sub_goal_key = some (text "g-1");
          });
      label_prefix = none;
    })
    ≡ label_prefix ∷ []
unfolding program
prefix_missing = refl

all_tasks :
    map
      (λ t. t.key)
      (flatten_epm_rollup_boards_for_dependencies
        (record { project = project [] [] []; tree = build_rollup_tree payload } ∷ boards))
    ≡ some (text "I-1")
      ∷ some (text "E-1")
      ∷ some (text "S-1")
      ∷ some (text "E-2")
      ∷ some (text " S-2 ")
      ∷ []
unfolding program
all_tasks = refl
