-- ===== src/Epm/Settings/Order.antt =====
-- The order and the views of the table of projects.
use Prim.Native.Nat.{Ordering}
use jira_execution_planner.Base.{refl, sym, subst, Option, some, List, arith, if_cases}
use jira_execution_planner.Base.Lists.{non_empty}
use jira_execution_planner.Base.Text.{Text, text, text_beq}
use jira_execution_planner.Base.Sort.{SortsTo}
use jira_execution_planner.Base.Comparator.{
  IsComparator, chain-IsComparator, key-IsComparator, on-IsComparator, sort-SortsTo, le_of,
}
use jira_execution_planner.Base.Indexed.{sort_indexed_lem}
use jira_execution_planner.Epm.{Project}
use jira_execution_planner.Epm.Status.{normalize_epm_settings_sort_text}
use jira_execution_planner.Epm.Flatten.{text_or}
use jira_execution_planner.Epm.Settings.{
  name_of, label_of, label_status, compare_filled, by_name, by_status, by_label, no_order,
  project_order, sort_epm_settings_projects, get_epm_settings_status_rank,
}

compare_filled-IsComparator : IsComparator compare_filled
compare_filled-IsComparator = record {
  swaps = λ a b. ground arith;
  carries = λ a b c h k. ground arith;
}

module _ (locale_compare : Text → Text → Ordering) (consistent : IsComparator locale_compare) where
  by_name-IsComparator : IsComparator (by_name locale_compare)
  by_name-IsComparator = on-IsComparator name_of locale_compare consistent

  by_status-IsComparator : IsComparator (by_status locale_compare)
  by_status-IsComparator = chain-IsComparator _ _ (key-IsComparator get_epm_settings_status_rank) (
      chain-IsComparator _ _ (on-IsComparator label_status locale_compare consistent)
        by_name-IsComparator)

  by_label-IsComparator : IsComparator (by_label locale_compare)
  by_label-IsComparator =
      chain-IsComparator _ _
        (on-IsComparator (λ p. non_empty (label_of p)) compare_filled compare_filled-IsComparator)
        (chain-IsComparator _ _ (on-IsComparator label_of locale_compare consistent)
          by_name-IsComparator)

  no_order-IsComparator : IsComparator (no_order locale_compare)
  no_order-IsComparator = record { swaps = λ a b. refl; carries = λ a b c h k. refl }

  project_order-IsComparator : (key : Text) → IsComparator (project_order locale_compare key)
  project_order-IsComparator key =
      if_cases IsComparator (text_beq key (text "name")) (λ _. by_name-IsComparator)
        (λ _.
          if_cases IsComparator (text_beq key (text "status")) (λ _. by_status-IsComparator)
            (λ _.
              if_cases IsComparator (text_beq key (text "label")) (λ _. by_label-IsComparator)
                (λ _. no_order-IsComparator)))

  -- Where `localeCompare` is consistent, the table comes out in the order of its sort key: by
  -- name; by rank of status, status and name; by label, blank ones last, and name; or as it is.
  -- No project is lost, and projects that tie keep their order.
  pub sort_epm_settings_projects-SortsTo :
      (projects : List Project) (sort_key : Option Text)
      → SortsTo
          (le_of (
            project_order locale_compare
              (normalize_epm_settings_sort_text (some (text_or sort_key (text "status"))))))
          projects
          (sort_epm_settings_projects locale_compare (some projects) sort_key)
  unfolding sort_epm_settings_projects
  sort_epm_settings_projects-SortsTo projects sort_key =
      let key = normalize_epm_settings_sort_text (some (text_or sort_key (text "status"))) in
      let order = project_order locale_compare key in
      subst (SortsTo (le_of order) projects) (sym (sort_indexed_lem order projects))
        (sort-SortsTo order (project_order-IsComparator key) projects)
