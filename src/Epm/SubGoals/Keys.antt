-- ===== src/Epm/SubGoals/Keys.antt =====
-- Normalised sub-goal keys, and clicks on them.
use jira_execution_planner.Base.{
  ◌≡◌, ◌≢◌, refl, sym, ap, ◌∙◌, subst, true, not, Option, some, List, [], ◌∷◌, ◌++◌, arith, map,
  if_cases, append_assoc, append-nil,
}
use jira_execution_planner.Base.Lists.{
  All, Distinct, Distinct-snoc, Distinct-filter, Fresh, Fresh-nil, Fresh-snoc, All-append,
  All-filter, All_of_includes, filter, includes, non_empty, All-of_members, filter-eq_of_All,
}
use jira_execution_planner.Base.Text.{Text, text_equality, upper, trim, trimmed, upper_key}
use jira_execution_planner.Base.Upper.{upper_key_idem}
use jira_execution_planner.Epm.SubGoals.{
  Config, is_epm_projects_config_ready, get_epm_project_prerequisites, Scope,
  normalize_epm_settings_key_part, push_keys, scope_values, normalize_epm_scope_sub_goal_keys,
  keys_scope, next_selection, get_next_epm_sub_goal_selection,
}
use jira_execution_planner.Epm.SubGoals.Selection.{IsSelection, next-IsSelection}
use jira_execution_planner.Epm.SubGoals.Undo.{undo}

-- Trimmed, in upper case, not empty
pub record IsGoalKey (k : Text) : Type 0 where
  pub fixed : normalize_epm_settings_key_part (some k) ≡ k
  pub filled : non_empty k ≡ true

IsGoalKey-of :
    (v : Option Text)
    → non_empty (normalize_epm_settings_key_part v) ≡ true
    → IsGoalKey (normalize_epm_settings_key_part v)
unfolding normalize_epm_settings_key_part
IsGoalKey-of v h = record { fixed = upper_key_idem v; filled = h }

abbrev pub AreGoalKeys : List Text → Type 0
AreGoalKeys keys = All IsGoalKey keys × Distinct keys

push_keys-AreGoalKeys :
    (keys : List Text) (values : List (Option Text))
    → AreGoalKeys keys
    → AreGoalKeys (push_keys keys values)
unfolding push_keys
push_keys-AreGoalKeys keys [] h = h
push_keys-AreGoalKeys keys (v ∷ values) h =
    if_cases AreGoalKeys (not (non_empty (normalize_epm_settings_key_part v)))
      (λ _. push_keys-AreGoalKeys keys values h)
      (λ filled.
        if_cases AreGoalKeys (includes (normalize_epm_settings_key_part v) keys)
          (λ _. push_keys-AreGoalKeys keys values h)
          (λ new. push_keys-AreGoalKeys (keys ++ normalize_epm_settings_key_part v ∷ []) values (
            All-append IsGoalKey keys _ h.0 (IsGoalKey-of v (ground arith), tt),
            Distinct-snoc (normalize_epm_settings_key_part v) keys new h.1,
          )))

pub normalize-AreGoalKeys :
    (scope : Option Scope) → AreGoalKeys (normalize_epm_scope_sub_goal_keys scope)
unfolding normalize_epm_scope_sub_goal_keys
normalize-AreGoalKeys scope = push_keys-AreGoalKeys [] (scope_values scope) (tt, tt)

push_keys-fixed :
    (keys more : List Text)
    → All IsGoalKey more
    → Distinct more
    → Fresh keys more
    → push_keys keys (map some more) ≡ keys ++ more
unfolding push_keys
push_keys-fixed keys [] g d f = sym (append-nil keys)
push_keys-fixed keys (k ∷ more) g d f =
    rw (g.0.fixed, g.0.filled, f.0)
      (push_keys-fixed (keys ++ k ∷ []) more g.1 d.1 (Fresh-snoc k keys more d.0 f.1)
        ∙ append_assoc keys (k ∷ []) more)

-- Normalised keys are normalised again to themselves.
normalize-fixed :
    (keys : List Text)
    → AreGoalKeys keys
    → normalize_epm_scope_sub_goal_keys (keys_scope (some (map some keys))) ≡ keys
unfolding normalize_epm_scope_sub_goal_keys upper_key upper trimmed trim
normalize-fixed [] h = refl
normalize-fixed (k ∷ keys) h = push_keys-fixed [] (k ∷ keys) h.0 h.1 (Fresh-nil (k ∷ keys))

-- `getNextEpmSubGoalSelection(saved, selected, clicked)`
abbrev pub click : List Text → List Text → Text → List Text
click saved selected clicked =
    get_next_epm_sub_goal_selection (some (map some saved)) (some (map some selected))
      (some clicked)

selected-AreGoalKeys :
    (saved selected : List Text)
    → AreGoalKeys saved
    → IsSelection saved selected
    → AreGoalKeys selected
selected-AreGoalKeys saved selected h s = subst AreGoalKeys s.in_order (
  All-filter IsGoalKey (λ k. includes k selected) saved h.0,
  Distinct-filter (λ k. includes k selected) saved h.1,
)

-- On saved keys as normalised, a selection of them and one of them, nothing is normalised away.
click-eq :
    (saved selected : List Text) (c : Text)
    → AreGoalKeys saved
    → IsSelection saved selected
    → includes c saved ≡ true
    → click saved selected c ≡ next_selection saved selected c
unfolding get_next_epm_sub_goal_selection
click-eq saved selected c h s m =
    let kept : filter (λ k. includes k saved) selected ≡ selected =
      filter-eq_of_All (λ k. includes k saved) selected
        (subst (All (λ k. includes k saved ≡ true)) s.in_order
          (All-filter _ (λ k. includes k selected) saved (All-of_members saved (λ k i. i)))) in
    rw
      (
        normalize-fixed saved h,
        normalize-fixed selected (selected-AreGoalKeys saved selected h s),
        kept,
        (All_of_includes IsGoalKey c saved h.0 m).fixed,
      )
      refl

-- A click on a saved sub-goal leaves a selection in the order of the saved keys that is never all
-- of them; none selected stands for all.
pub click-IsSelection :
    (saved selected : List Text) (c : Text)
    → AreGoalKeys saved
    → IsSelection saved selected
    → includes c saved ≡ true
    → IsSelection saved (click saved selected c)
click-IsSelection saved selected c h s m =
    rw (click-eq saved selected c h s m)
      (next-IsSelection saved selected c (All_of_includes IsGoalKey c saved h.0 m).filled m)

-- A second click on the same saved sub-goal takes the first one back, unless that sub-goal was
-- selected alone.
pub click_twice :
    (saved selected : List Text) (c : Text)
    → AreGoalKeys saved
    → IsSelection saved selected
    → includes c saved ≡ true
    → selected ≢ c ∷ []
    → click saved (click saved selected c) c ≡ selected
click_twice saved selected c h s m alone =
    click-eq saved (click saved selected c) c h (click-IsSelection saved selected c h s m) m
    ∙ ap (λ r. next_selection saved r c) (click-eq saved selected c h s m)
    ∙ undo saved c (All_of_includes IsGoalKey c saved h.0 m).filled m selected h.1 s alone

-- The configuration is ready exactly when no prerequisite is missing.
ready-prerequisites :
    (config : Config)
    → is_epm_projects_config_ready config ≡ not (non_empty (get_epm_project_prerequisites config))
unfolding is_epm_projects_config_ready get_epm_project_prerequisites
ready-prerequisites config = ground arith
