-- ===== src/Epm/Settings.antt =====
-- The table of projects in the settings (frontend/src/epm/epmProjectUtils.mjs): its views and
-- orders, and the drafts of its rows. `localeCompare` is the parameter `locale_compare`.
pub mod Order
use Prim.Native.Nat.{compare, Ordering}
use jira_execution_planner.Base.{
  ℕ, zero, suc, Bool, true, false, ◌&&◌, ◌||◌, not, Option, none, some, List, [], ◌∷◌, ◌++◌,
  if◌then◌else◌,
}
use jira_execution_planner.Base.Lists.{filter, includes, non_empty, length}
use jira_execution_planner.Base.Text.{Text, text, text_beq, text_equality, trim, trimmed, or_empty}
use jira_execution_planner.Base.Dict.{Dict, lookup}
use jira_execution_planner.Base.Comparator.{then_by}
use jira_execution_planner.Base.Indexed.{sort_indexed}
use jira_execution_planner.Epm.{Project}
use jira_execution_planner.Epm.Status.{
  normalize_epm_settings_sort_text, normalize_epm_settings_status, first_of,
}
use jira_execution_planner.Epm.Flatten.{text_or}
use jira_execution_planner.Epm.Boards.{get_epm_project_display_name}

-- `status` with the text of the label before that of the value
abbrev pub label_status : Project → Text
label_status project =
    normalize_epm_settings_status (first_of project.state_label project.state_value)

abbrev status_ranks : Dict ℕ
status_ranks =
    (text "on track", 10)
    ∷ (text "at risk", 20)
    ∷ (text "off track", 30)
    ∷ (text "blocked", 40)
    ∷ (text "pending", 50)
    ∷ (text "paused", 60)
    ∷ (text "done", 70)
    ∷ (text "completed", 70)
    ∷ (text "release", 80)
    ∷ (text "released", 80)
    ∷ (text "archived", 90)
    ∷ []

abbrev rank_or_999 : Option ℕ → ℕ
rank_or_999 none = 999
rank_or_999 (some n) = n

unfoldable pub get_epm_settings_status_rank : Project → ℕ
get_epm_settings_status_rank project = rank_or_999 (lookup (label_status project) status_ranks)

abbrev archived_settings_statuses : List Text
archived_settings_statuses =
    text "archived"
    ∷ text "cancelled"
    ∷ text "completed"
    ∷ text "done"
    ∷ text "release"
    ∷ text "released"
    ∷ []

unfoldable pub is_archived_epm_settings_project : Project → Bool
is_archived_epm_settings_project project =
    text_beq (normalize_epm_settings_sort_text project.tab_bucket) (text "archived")
    || includes (label_status project) archived_settings_statuses

unfoldable pub filter_epm_settings_projects_for_view :
    Option (List Project) → Option Text → List Project
unfolding is_archived_epm_settings_project
filter_epm_settings_projects_for_view none view = []
filter_epm_settings_projects_for_view (some projects) view =
    let v = normalize_epm_settings_sort_text (some (text_or view (text "current"))) in
    if text_beq v (text "all")
    then projects
    else if text_beq v (text "archived")
    then filter is_archived_epm_settings_project projects
    else filter (λ p. not (is_archived_epm_settings_project p)) projects

abbrev pub name_of : Project → Text
name_of project =
    normalize_epm_settings_sort_text (some (get_epm_project_display_name (some project)))

abbrev pub label_of : Project → Text
label_of project = normalize_epm_settings_sort_text project.label

-- Blank labels last
abbrev pub compare_filled : Bool → Bool → Ordering
compare_filled true false = Ordering.lt
compare_filled false true = Ordering.gt
compare_filled true true = Ordering.eq
compare_filled false false = Ordering.eq

module _ (locale_compare : Text → Text → Ordering) where
  abbrev pub by_name : Project → Project → Ordering
  by_name a b = locale_compare (name_of a) (name_of b)

  abbrev pub by_status : Project → Project → Ordering
  by_status a b =
      then_by (compare (get_epm_settings_status_rank a) (get_epm_settings_status_rank b))
        (then_by (locale_compare (label_status a) (label_status b)) (by_name a b))

  abbrev pub by_label : Project → Project → Ordering
  by_label a b =
      then_by (compare_filled (non_empty (label_of a)) (non_empty (label_of b)))
        (then_by (locale_compare (label_of a) (label_of b)) (by_name a b))

  abbrev pub no_order : Project → Project → Ordering
  no_order a b = Ordering.eq

  -- The comparator for a sort key, but for the index
  abbrev pub project_order : Text → Project → Project → Ordering
  project_order key =
      if text_beq key (text "name")
      then by_name
      else if text_beq key (text "status")
      then by_status
      else if text_beq key (text "label")
      then by_label
      else no_order

  unfoldable pub sort_epm_settings_projects : Option (List Project) → Option Text → List Project
  unfolding get_epm_settings_status_rank sort_indexed
  sort_epm_settings_projects none sort_key = []
  sort_epm_settings_projects (some projects) sort_key =
      sort_indexed
        (project_order (normalize_epm_settings_sort_text (some (text_or sort_key (text "status")))))
        projects
