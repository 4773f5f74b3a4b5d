-- ===== src/Scenario/Segments.antt =====
-- `splitAtSprintBoundaries` of frontend/src/scenario/scenarioUtils.js.
-- `Date` is the browser's, with its time zone: `parse_date` gives the time of a text, `none` for
-- an invalid one, which compares false with every other; `iso_date` prints a time.
use jira_execution_planner.Base.{
  ℕ, suc, ◌≡◌, ◌&&◌, Option, none, some, List, [], ◌∷◌, ◌++◌, ltb, if◌then◌else◌,
}
use jira_execution_planner.Base.Lists.{length, filter, non_empty}
use jira_execution_planner.Base.Text.{Text, text, text_equality, or_empty, decimal}
use jira_execution_planner.Scenario.Bars.{Issue, is_set}

-- Both times, if both are there.
abbrev pub two_times : Option ℕ → Option ℕ → Option (ℕ × ℕ)
two_times none b = none
two_times (some a) none = none
two_times (some a) (some b) = some (a, b)

-- `parseScenarioDate`; the first argument is `new Date` of the text at midnight.
unfoldable pub parse_scenario_date : (Text → Option ℕ) → Option Text → Option ℕ
parse_scenario_date parse_date value = if is_set value then parse_date (or_empty value) else none

-- `sprintBoundaries.filter(b => b > start && b < end)`
unfoldable pub inner_bounds : ℕ → ℕ → List ℕ → List ℕ
inner_bounds start finish bounds = filter (λ b. ltb start b && ltb b finish) bounds

module _ (parse_date : Text → Option ℕ) (iso_date : ℕ → Text) where
  -- The loop over `allBounds`.
  unfoldable pub segments_from : Issue → ℕ → ℕ → List ℕ → List Issue
  segments_from issue idx seg_start [] = []
  segments_from issue idx seg_start (bound ∷ bounds) =
      record issue {
        key = issue.key ++ (text "__seg" ++ decimal idx);
        original_key = some issue.key;
        start_date = some (iso_date seg_start);
        end_date = some (iso_date bound);
      }
      ∷ segments_from issue (suc idx) bound bounds

  unfoldable pub split_between : Issue → List ℕ → Option (ℕ × ℕ) → List Issue
  split_between issue bounds none = issue ∷ []
  split_between issue bounds (some (start, finish)) =
      let splits = inner_bounds start finish bounds in
      if non_empty splits then segments_from issue 0 start (splits ++ finish ∷ []) else issue ∷ []

  unfoldable pub split_at_sprint_boundaries : Issue → List ℕ → List Issue
  split_at_sprint_boundaries issue bounds =
      if ltb (length bounds) 2
      then issue ∷ []
      else split_between issue bounds (
          two_times (parse_scenario_date parse_date issue.start_date)
            (parse_scenario_date parse_date issue.end_date))

  -- The segments follow each other from the first text to the last without a gap, and name the
  -- issue that they are cut from.
  abbrev pub Chain : Text → Text → List Issue → Text → Type 0
  Chain key s [] e = s ≡ e
  Chain key s (i ∷ segments) e =
      (i.start_date ≡ some s)
      × (i.original_key ≡ some key)
      × ((t : Text) × (i.end_date ≡ some t) × Chain key t segments e)
