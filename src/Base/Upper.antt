-- ===== src/Base/Upper.antt =====
-- A key in upper case and trimmed is a fixed point of `String(value || '').trim().toUpperCase()`.
use mathlib.Core.Path.{◌≡◌, refl, ap, ◌∙◌}
use mathlib.Core.Option.{Option, some}
use mathlib.Core.List.{[], ◌∷◌}
use native.Mathlib.Omega.{arith}
use jira_execution_planner.Base.Lists.{non_empty}
use jira_execution_planner.Base.Text.{
  Text, is_space, trim_start, trim_end, trim, trimmed, upper, upper_unit, upper_key, trim_idem,
  upper_idem, or_empty,
}

is_space-upper_unit : (c : _) → is_space (upper_unit c) ≡ is_space c
unfolding is_space upper_unit
is_space-upper_unit c = ground arith

trim_start-upper : (s : Text) → trim_start (upper s) ≡ upper (trim_start s)
unfolding trim_start upper
trim_start-upper [] = refl
trim_start-upper (c ∷ s) = ground (arith, is_space-upper_unit c, trim_start-upper s)

pub non_empty-upper : (s : Text) → non_empty (upper s) ≡ non_empty s
unfolding upper
non_empty-upper [] = refl
non_empty-upper (c ∷ s) = refl

trim_end-upper : (s : Text) → trim_end (upper s) ≡ upper (trim_end s)
unfolding trim_end upper
trim_end-upper [] = refl
trim_end-upper (c ∷ s) =
    ground (arith, is_space-upper_unit c, trim_end-upper s, non_empty-upper (trim_end s))

trim-upper : (s : Text) → trim (upper s) ≡ upper (trim s)
unfolding trim
trim-upper s = ap trim_end (trim_start-upper s) ∙ trim_end-upper (trim_start s)

pub upper_key-fixed : (v : Option Text) → upper (trim (upper_key v)) ≡ upper_key v
unfolding upper_key trimmed
upper_key-fixed v =
    let t = trim (or_empty v) in
    ap upper (trim-upper t) ∙ upper_idem (trim t) ∙ ap upper (trim_idem (or_empty v))

pub upper_key_idem : (v : Option Text) → upper_key (some (upper_key v)) ≡ upper_key v
upper_key_idem v = unfold upper_key trimmed in upper_key-fixed v
