-- ===== src/Scenario/Bars.antt =====
-- The dates of the bars: `computeDateSource` and `applyIssueOverride` of
-- frontend/src/scenario/scenarioUtils.js, and `buildCapacityPlaceholderRows` of
-- frontend/src/scenario/scenarioLaneUtils.js. A date is an ISO text or missing; an empty text
-- counts as missing, as `||` reads it.
use jira_execution_planner.Base.{
  ◌≡◌, refl, ◌∙◌, Bool, true, ◌&&◌, ◌||◌, not, Option, none, some, List, [], ◌∷◌, map,
  if◌then◌else◌, if_cases, arith, Bool-cases, inl, inr,
}
use jira_execution_planner.Base.Lists.{filter, includes, non_empty, All}
use jira_execution_planner.Base.Text.{Text, text_equality, text_le, or_empty}
use jira_execution_planner.Base.Sort.{text_le_total}

pub data DateSource : Type 0 where
  from_override from_jira computed : DateSource

pub record Issue : Type 0 where
  pub key : Text
  pub original_key : Option Text
  pub start_date : Option Text
  pub end_date : Option Text
  pub jira_start_date : Option Text
  pub jira_due_date : Option Text
  pub date_source : Option DateSource

pub record Override : Type 0 where
  pub start_date : Option Text
  pub end_date : Option Text

abbrev pub is_set : Option Text → Bool
is_set value = non_empty (or_empty value)

-- `a || b`
abbrev pub or_else : Option Text → Option Text → Option Text
or_else a b = if is_set a then a else b

unfoldable pub compute_date_source :
    Option Text → Option Text → Option Text → Option Text → DateSource
compute_date_source override_start override_end jira_start jira_due =
    if is_set override_start || is_set override_end
    then from_override
    else if is_set jira_start || is_set jira_due
    then from_jira
    else computed

-- `dateSource === 'computed' ? issue : { ...issue, dateSource }`
unfoldable pub with_source : DateSource → Issue → Issue
with_source from_override issue = record issue { date_source = some from_override }
with_source from_jira issue = record issue { date_source = some from_jira }
with_source computed issue = issue

unfoldable pub apply_issue_override : Issue → Option Override → Issue
apply_issue_override issue none =
    with_source (compute_date_source none none issue.jira_start_date issue.jira_due_date) issue
apply_issue_override issue (some o) = record issue {
  start_date = or_else o.start_date (or_else issue.jira_start_date issue.start_date);
  end_date = or_else o.end_date (or_else issue.jira_due_date issue.end_date);
  date_source =
      some (compute_date_source o.start_date o.end_date issue.jira_start_date issue.jira_due_date);
}

or_else_idem :
    (a b c : Option Text)
    → or_else a (or_else b (or_else a (or_else b c))) ≡ or_else a (or_else b c)
or_else_idem a b c = ground arith

with_source_idem :
    (d : DateSource) (issue : Issue)
    → with_source
        (compute_date_source none none
          (with_source d issue).jira_start_date
          (with_source d issue).jira_due_date)
        (with_source d issue)
      ≡ with_source
          (compute_date_source none none issue.jira_start_date issue.jira_due_date)
          (with_source d issue)
unfolding with_source
with_source_idem from_override issue = refl
with_source_idem from_jira issue = refl
with_source_idem computed issue = refl

with_source_twice :
    (d : DateSource) (issue : Issue) → with_source d (with_source d issue) ≡ with_source d issue
unfolding with_source
with_source_twice from_override issue = refl
with_source_twice from_jira issue = refl
with_source_twice computed issue = refl

-- An override, or the lack of one, applied a second time changes nothing.
pub apply_issue_override_idem :
    (issue : Issue) (o : Option Override)
    → apply_issue_override (apply_issue_override issue o) o ≡ apply_issue_override issue o
unfolding apply_issue_override
apply_issue_override_idem issue none =
    let d = compute_date_source none none issue.jira_start_date issue.jira_due_date in
    with_source_idem d issue ∙ with_source_twice d issue
apply_issue_override_idem issue (some o) =
    rw
      (
        or_else_idem o.start_date issue.jira_start_date issue.start_date,
        or_else_idem o.end_date issue.jira_due_date issue.end_date,
      )
      refl

-- `a < b` on strings
abbrev pub text_lt : Text → Text → Bool
text_lt a b = not (text_le b a)

unfoldable pub clip : Text → Text → Issue → Issue
clip sprint_start sprint_end issue = record issue {
  start_date =
      if not (is_set issue.start_date) || text_lt (or_empty issue.start_date) sprint_start
      then some sprint_start
      else issue.start_date;
  end_date =
      if not (is_set issue.end_date) || text_lt sprint_end (or_empty issue.end_date)
      then some sprint_end
      else issue.end_date;
}

-- `issue.originalKey || issue.key`
abbrev pub own_key : Issue → Text
own_key issue = if is_set issue.original_key then or_empty issue.original_key else issue.key

unfoldable pub build_capacity_placeholder_rows :
    List Issue → Option (List Text) → Option Text → Option Text → List Issue
build_capacity_placeholder_rows issues none sprint_start sprint_end = []
build_capacity_placeholder_rows issues (some excluded_keys) sprint_start sprint_end =
    if is_set sprint_start && is_set sprint_end
    then map (clip (or_empty sprint_start) (or_empty sprint_end))
        (filter (λ issue. includes (own_key issue) excluded_keys) issues)
    else []

-- The row begins and ends within the sprint, and is one of the excluded issues.
pub record IsRow (excluded_keys : List Text) (sprint_start sprint_end : Text) (row : Issue)
    : Type 0 where
  pub begins : text_le sprint_start (or_empty row.start_date) ≡ true
  pub ends : text_le (or_empty row.end_date) sprint_end ≡ true
  pub excluded : includes (own_key row) excluded_keys ≡ true

text_le_refl : (s : Text) → text_le s s ≡ true
text_le_refl s = ground (arith, text_le_total s s)

clip-IsRow :
    (excluded_keys : List Text) (s e : Text) (issue : Issue)
    → includes (own_key issue) excluded_keys ≡ true
    → IsRow excluded_keys s e (clip s e issue)
unfolding clip
clip-IsRow excluded_keys s e issue h = record {
  begins =
      if_cases {A = Option Text} (λ v. text_le s (or_empty v) ≡ true)
        (not (is_set issue.start_date) || text_lt (or_empty issue.start_date) s)
        (λ _. text_le_refl s) (λ h. ground (arith, h, text_le_total (or_empty issue.start_date) s));
  ends =
      if_cases {A = Option Text} (λ v. text_le (or_empty v) e ≡ true)
        (not (is_set issue.end_date) || text_lt e (or_empty issue.end_date)) (λ _. text_le_refl e)
        (λ h. ground (arith, h));
  excluded = h;
}

clipped-IsRow :
    (excluded_keys : List Text) (s e : Text) (issues : List Issue)
    → All
        (IsRow excluded_keys s e)
        (map (clip s e) (filter (λ issue. includes (own_key issue) excluded_keys) issues))
clipped-IsRow excluded_keys s e [] = tt
clipped-IsRow excluded_keys s e (issue ∷ issues) =
    elim (Bool-cases (includes (own_key issue) excluded_keys)) [
      | inl h ↦ rw h (clip-IsRow excluded_keys s e issue h, clipped-IsRow excluded_keys s e issues)
      | inr h ↦ rw h (clipped-IsRow excluded_keys s e issues)
    ]

-- Each capacity row is one of the excluded issues, begins no earlier than the sprint and ends no
-- later, whatever dates the issue had or lacked.
pub rows-IsRow :
    (issues : List Issue) (excluded_keys : List Text) (sprint_start sprint_end : Option Text)
    → All
        (IsRow excluded_keys (or_empty sprint_start) (or_empty sprint_end))
        (build_capacity_placeholder_rows issues (some excluded_keys) sprint_start sprint_end)
unfolding build_capacity_placeholder_rows
rows-IsRow issues excluded_keys sprint_start sprint_end =
    if_cases (All (IsRow excluded_keys (or_empty sprint_start) (or_empty sprint_end)))
      (is_set sprint_start && is_set sprint_end)
      (λ _. clipped-IsRow excluded_keys (or_empty sprint_start) (or_empty sprint_end) issues)
      (λ _. tt)
