-- ===== src/Scenario/Dependencies.antt =====
-- `validateDependencies` of frontend/src/scenario/scenarioUtils.js. `parse_date` is that of
-- Scenario/Segments.antt.
use jira_execution_planner.Base.{
  ℕ, ◌≡◌, ◌∙◌, ◌<◌, ◌↔◌, ◌⊎◌, inl, inr, Bool-cases, &&_true, refl, subst, ap, Bool, true, false,
  ◌&&◌, ◌||◌, Option, none, some, List, [], ◌∷◌, ◌++◌, ltb, if◌then◌else◌, if_cases, arith,
}
use jira_execution_planner.Base.Lists.{
  non_empty, any, includes, Distinct, Distinct-snoc, includes-append,
}
use jira_execution_planner.Base.Text.{Text, text, text_beq, text_beq_iff, text_equality, or_empty}
use jira_execution_planner.Base.Dict.{Dict, lookup}
use jira_execution_planner.Scenario.Bars.{Issue, is_set}
use jira_execution_planner.Scenario.Segments.{two_times, parse_scenario_date}

pub record Edge : Type 0 where
  pub from_key : Option Text
  pub to_key : Option Text

-- `toStart.getTime() < fromEnd.getTime()`, false where a date is missing or invalid
abbrev pub starts_too_early : Option (ℕ × ℕ) → Bool
starts_too_early none = false
starts_too_early (some (to_start, from_end)) = ltb to_start from_end

abbrev pub edge_text : Edge → Text
edge_text edge = or_empty edge.from_key ++ (text "->" ++ or_empty edge.to_key)

-- `violations.add(key)`
abbrev pub add_violation : Text → List Text → List Text
add_violation key violations =
    if includes key violations then violations else violations ++ key ∷ []

set_text : (o : Option Text) → is_set o ≡ true → o ≡ some (or_empty o)
set_text none h = absurd (ground arith)
set_text (some t) h = refl

early_times :
    (a b : Option ℕ)
    → starts_too_early (two_times a b) ≡ true
    → (s : ℕ) × (e : ℕ) × (a ≡ some s) × (b ≡ some e) × (s < e)
early_times none b h = absurd (ground arith)
early_times (some s) none h = absurd (ground arith)
early_times (some s) (some e) h = (s, e, refl, refl, ground arith)

module _ (parse_date : Text → Option ℕ) where
  unfoldable pub is_violated : Option Issue → Option Issue → Bool
  is_violated none to_issue = false
  is_violated (some from_issue) none = false
  is_violated (some from_issue) (some to_issue) = starts_too_early (
      two_times (parse_scenario_date parse_date to_issue.start_date)
        (parse_scenario_date parse_date from_issue.end_date))

  unfoldable pub is_edge_violated : Dict Issue → Edge → Bool
  is_edge_violated issue_by_key edge =
      (is_set edge.from_key && is_set edge.to_key)
      && is_violated (lookup (or_empty edge.from_key) issue_by_key)
          (lookup (or_empty edge.to_key) issue_by_key)

  abbrev pub add_if_violated : Dict Issue → Edge → List Text → List Text
  add_if_violated issue_by_key edge violations =
      if is_edge_violated issue_by_key edge
      then add_violation (edge_text edge) violations
      else violations

  unfoldable pub validate_from : Dict Issue → List Text → List Edge → List Text
  validate_from issue_by_key violations [] = violations
  validate_from issue_by_key violations (edge ∷ edges) =
      validate_from issue_by_key (add_if_violated issue_by_key edge violations) edges

  abbrev pub validate_dependencies : List Edge → Dict Issue → List Text
  validate_dependencies edges issue_by_key = validate_from issue_by_key [] edges

  includes-validate_from :
      (k : Text) (issue_by_key : Dict Issue) (violations : List Text) (edges : List Edge)
      → includes k (validate_from issue_by_key violations edges) ≡ (
          includes k violations
          || any (λ e. is_edge_violated issue_by_key e && text_beq (edge_text e) k) edges)
  unfolding validate_from
  includes-validate_from k issue_by_key violations [] = ground arith
  includes-validate_from k issue_by_key violations (edge ∷ edges) =
      let next = add_if_violated issue_by_key edge violations in
      ground (
        arith,
        includes-validate_from k issue_by_key next edges,
        includes-append k violations (edge_text edge ∷ []),
        λ (e : text_beq (edge_text edge) k ≡ true).
            ap (λ x. includes x violations) ((text_beq_iff (edge_text edge) k).0 e),
      )

  validate_from-Distinct :
      (issue_by_key : Dict Issue) (violations : List Text) (edges : List Edge)
      → Distinct violations
      → Distinct (validate_from issue_by_key violations edges)
  unfolding validate_from
  validate_from-Distinct issue_by_key violations [] d = d
  validate_from-Distinct issue_by_key violations (edge ∷ edges) d =
      validate_from-Distinct issue_by_key (add_if_violated issue_by_key edge violations) edges (
        if_cases Distinct (is_edge_violated issue_by_key edge)
          (λ _.
            if_cases Distinct (includes (edge_text edge) violations) (λ _. d)
              (λ new. Distinct-snoc (edge_text edge) violations new d))
          (λ _. d))

  -- The two issues of the edge are known and dated, and the later one starts before the earlier
  -- one ends; the text is the name of the edge.
  pub data IsLate (issue_by_key : Dict Issue) (edge : Edge) (name : Text) : Type 0 where
    late :
        (from to : Text) (first second : Issue) (first_end second_start : ℕ)
        → edge.from_key ≡ some from
        → non_empty from ≡ true
        → edge.to_key ≡ some to
        → non_empty to ≡ true
        → lookup from issue_by_key ≡ some first
        → lookup to issue_by_key ≡ some second
        → parse_scenario_date parse_date first.end_date ≡ some first_end
        → parse_scenario_date parse_date second.start_date ≡ some second_start
        → second_start < first_end
        → name ≡ from ++ (text "->" ++ to)
        → IsLate issue_by_key edge name

  -- The text names some late edge of the list.
  abbrev pub NamesLate : Dict Issue → Text → List Edge → Type 0
  NamesLate issue_by_key k [] = ⊥
  NamesLate issue_by_key k (edge ∷ edges) =
      IsLate issue_by_key edge k ⊎ NamesLate issue_by_key k edges

  violated_dates :
      (first second : Option Issue)
      → is_violated first second ≡ true
      → (f : Issue) × (s : Issue) × (e : ℕ) × (b : ℕ) × (first ≡ some f)
        × (second ≡ some s)
        × (parse_scenario_date parse_date f.end_date ≡ some e)
        × (parse_scenario_date parse_date s.start_date ≡ some b)
        × (b < e)
  unfolding is_violated
  violated_dates none second h = absurd (ground arith)
  violated_dates (some f) none h = absurd (ground arith)
  violated_dates (some f) (some s) h =
      let (b, e, p, q, less) =
        early_times (parse_scenario_date parse_date s.start_date)
          (parse_scenario_date parse_date f.end_date) h in
      (f, s, e, b, refl, refl, q, p, less)

  IsLate-of :
      (issue_by_key : Dict Issue) (edge : Edge)
      → is_edge_violated issue_by_key edge ≡ true
      → IsLate issue_by_key edge (edge_text edge)
  unfolding is_edge_violated
  IsLate-of issue_by_key edge h =
      let (set, v) =
        &&_true (is_set edge.from_key && is_set edge.to_key)
          (is_violated (lookup (or_empty edge.from_key) issue_by_key)
            (lookup (or_empty edge.to_key) issue_by_key))
          h in
      let (sf, st) = &&_true (is_set edge.from_key) (is_set edge.to_key) set in
      let (f, s, e, b, lf, ls, pf, ps, less) =
        violated_dates (lookup (or_empty edge.from_key) issue_by_key)
          (lookup (or_empty edge.to_key) issue_by_key) v in
      late (or_empty edge.from_key) (or_empty edge.to_key) f s e b (set_text edge.from_key sf) sf
        (set_text edge.to_key st) st lf ls pf ps less refl

  IsLate-is_edge_violated :
      (issue_by_key : Dict Issue) (edge : Edge) (k : Text)
      → IsLate issue_by_key edge k
      → (is_edge_violated issue_by_key edge && text_beq (edge_text edge) k) ≡ true
  unfolding is_edge_violated is_violated
  IsLate-is_edge_violated issue_by_key edge k
        (late from to first second e s f nf t nt lf lt ef st less name) =
      rw (f, t)
        (rw (nf, nt, lf, lt)
          (rw (ef, st) (ground (arith, text_beq_iff (from ++ (text "->" ++ to)) k, name))))

  names_late :
      (issue_by_key : Dict Issue) (k : Text) (edges : List Edge)
      → (any (λ e. is_edge_violated issue_by_key e && text_beq (edge_text e) k) edges ≡ true)
        ↔ NamesLate issue_by_key k edges
  names_late issue_by_key k [] = (λ h. absurd (ground arith), λ n. absurd n)
  names_late issue_by_key k (edge ∷ edges) =
      let (to, from) = names_late issue_by_key k edges in
      (
        λ h. elim (Bool-cases (is_edge_violated issue_by_key edge && text_beq (edge_text edge) k)) [
          | inl here ↦
              let (v, e) =
                &&_true (is_edge_violated issue_by_key edge) (text_beq (edge_text edge) k) here in
              inl (
                subst (IsLate issue_by_key edge) ((text_beq_iff (edge_text edge) k).0 e)
                  (IsLate-of issue_by_key edge v))
          | inr later ↦ inr (to (ground (arith, later, h)))
        ],
        λ n. elim n [
          | inl here ↦ ground (arith, IsLate-is_edge_violated issue_by_key edge k here)
          | inr later ↦ ground (arith, from later)
        ],
      )

  -- The violations name exactly the edges whose two issues are known and dated and whose later
  -- issue starts before the earlier one ends, each name once.
  pub includes-validate_dependencies :
      (edges : List Edge) (issue_by_key : Dict Issue)
      → ((k : Text)
          → (includes k (validate_dependencies edges issue_by_key) ≡ true)
            ↔ NamesLate issue_by_key k edges)
        × Distinct (validate_dependencies edges issue_by_key)
  includes-validate_dependencies edges issue_by_key = (
    λ k.
        let same = includes-validate_from k issue_by_key [] edges in
        (
          (λ h. (names_late issue_by_key k edges).0 (ground (arith, same, h))),
          (λ n. same ∙ (names_late issue_by_key k edges).1 n),
        ),
    validate_from-Distinct issue_by_key [] edges tt,
  )
