-- ===== src/Epm/Dates.antt =====
-- Dates of project updates (frontend/src/epm/epmProjectUtils.mjs). `Date` is a library: `utc_day`
-- stands for the day of `Date.UTC(year, month - 1, day)` and `now_day` for that of `now`, `none` for
-- an invalid date, both counted from a day before all of them.
use jira_execution_planner.Base.{
  ℕ, zero, suc, ◌+◌, ◌-◌, ◌*◌, ◌/◌, Bool, true, false, ◌&&◌, ◌||◌, not, Option, none, some, List,
  [], ◌∷◌, ◌++◌, if◌then◌else◌, nat_beq, leb, ltb,
}
use jira_execution_planner.Base.Lists.{filter, includes, non_empty}
use jira_execution_planner.Base.Text.{Text, text, text_beq, text_equality, trimmed, decimal}
use jira_execution_planner.Epm.{Project}
use jira_execution_planner.Epm.Flatten.{text_or}
use jira_execution_planner.Epm.Status.{
  normalize_epm_settings_status, normalize_epm_settings_sort_text, first_of, active_states,
  backlog_states, archived_states, recent_completed_states,
}

abbrev is_digit : ℕ → Bool
is_digit c = leb 48 c && leb c 57

-- `\d{count}`: the number read after `n`, and what stands behind it.
unfoldable pub read_number : ℕ → ℕ → Text → Option (ℕ × Text)
read_number zero n s = some (n, s)
read_number (suc count) n [] = none
read_number (suc count) n (c ∷ s) =
    let rest = read_number count (n * 10 + (c - 48)) s in if is_digit c then rest else none

unfoldable pub skip_dash : Text → Option Text
skip_dash [] = none
skip_dash (c ∷ s) = if nat_beq c 45 then some s else none

infixl 5 ◌>>=◌
abbrev ◌>>=◌ {ℓ κ} : {A : Type ℓ} {B : Type κ} → Option A → (A → Option B) → Option B
none >>= f = none
some a >>= f = f a

pub record Ymd : Type 0 where
  pub year : ℕ
  pub month : ℕ
  pub day : ℕ

-- `/^(\d{4})-(\d{2})-(\d{2})/.exec(text)`
unfoldable pub match_date : Text → Option Ymd
unfolding read_number skip_dash
match_date s = do
  (year, s1) ← read_number 4 0 s
  s2 ← skip_dash s1
  (month, s3) ← read_number 2 0 s2
  s4 ← skip_dash s3
  (day, rest) ← read_number 2 0 s4
  some (record { year = year; month = month; day = day })

pub data Freshness : Type 0 where
  missing unknown stale fresh : Freshness

abbrev pub stale_days : ℕ
stale_days = 14

-- `${n} ${n === 1 ? unit : units} ago`
abbrev ago : ℕ → Text → Text → Text
ago n unit units = decimal n ++ text " " ++ (if nat_beq n 1 then unit else units) ++ text " ago"

abbrev at_least_1 : ℕ → ℕ
at_least_1 zero = 1
at_least_1 (suc n) = suc n

unfoldable pub relative_text : Option ℕ → Text
relative_text none = []
relative_text (some days) =
    if nat_beq days 0
    then text "today"
    else if nat_beq days 1
    then text "yesterday"
    else if ltb days 7
    then decimal days ++ text " days ago"
    else if ltb days 30
    then ago (at_least_1 (days / 7)) (text "week") (text "weeks")
    else if ltb days 365
    then ago (at_least_1 (days / 30)) (text "month") (text "months")
    else ago (at_least_1 (days / 365)) (text "year") (text "years")

-- The state and `ageDays` of the freshness
unfoldable pub freshness_of : Option ℕ → Bool → Freshness × Option ℕ
freshness_of age false = (missing, none)
freshness_of none true = (unknown, none)
freshness_of (some age) true = (if ltb stale_days age then stale else fresh, some age)

unfoldable pub is_recent_age : Option ℕ → Bool
is_recent_age none = false
is_recent_age (some age) = leb 0 age && ltb age stale_days

-- `status` with the text of the value before that of the label
abbrev pub value_status : Project → Text
value_status project =
    normalize_epm_settings_status (first_of project.state_value project.state_label)

abbrev known_buckets : List Text
known_buckets = text "active" ∷ text "backlog" ∷ text "archived" ∷ text "all" ∷ []

unfoldable pub get_epm_project_lifecycle_bucket : Project → Text
get_epm_project_lifecycle_bucket project =
    let bucket = normalize_epm_settings_sort_text project.tab_bucket in
    let status = value_status project in
    if includes status active_states
    then text "active"
    else if includes status backlog_states
    then text "backlog"
    else if includes status archived_states
    then text "archived"
    else if includes bucket known_buckets && not (non_empty status)
    then bucket
    else []

module _ (utc_day : ℕ → ℕ → ℕ → ℕ) (now_day : Option ℕ) where
  abbrev day_of : Option Ymd → Option ℕ
  day_of none = none
  day_of (some date) =
      if nat_beq date.year 0 || nat_beq date.month 0 || nat_beq date.day 0
      then none
      else some (utc_day date.year date.month date.day)

  unfoldable pub parse_epm_project_date : Option Text → Option ℕ
  unfolding match_date
  parse_epm_project_date value = day_of (match_date (trimmed value))

  -- The difference on ℕ stops at 0, as `Math.max(0, …)` does.
  abbrev age_of : Option ℕ → Option ℕ → Option ℕ
  age_of none now = none
  age_of (some date) none = none
  age_of (some date) (some now) = some (now - date)

  unfoldable pub get_epm_project_update_age_days : Option Text → Option ℕ
  unfolding parse_epm_project_date
  get_epm_project_update_age_days value = age_of (parse_epm_project_date value) now_day

  unfoldable pub format_epm_project_relative_date : Option Text → Text
  unfolding get_epm_project_update_age_days relative_text
  format_epm_project_relative_date value = relative_text (get_epm_project_update_age_days value)

  unfoldable pub build_epm_project_update_freshness : Option Text → Bool → Freshness × Option ℕ
  unfolding get_epm_project_update_age_days freshness_of
  build_epm_project_update_freshness date has_home_update =
      freshness_of (get_epm_project_update_age_days date) has_home_update

  unfoldable pub is_recently_completed_epm_project : Project → Bool
  unfolding get_epm_project_update_age_days is_recent_age
  is_recently_completed_epm_project project =
      if project.recently_completed
      then true
      else if not (includes (value_status project) recent_completed_states)
      then false
      else is_recent_age (get_epm_project_update_age_days project.latest_update_date)

  unfoldable pub is_on_tab : Text → Project → Bool
  unfolding get_epm_project_lifecycle_bucket is_recently_completed_epm_project
  is_on_tab tab project =
      let bucket = get_epm_project_lifecycle_bucket project in
      if text_beq tab (text "active")
      then text_beq bucket (text "active")
        || text_beq bucket (text "all")
        || is_recently_completed_epm_project project
      else text_beq bucket tab

  unfoldable pub filter_epm_projects_for_tab : Option (List Project) → Option Text → List Project
  unfolding is_on_tab
  filter_epm_projects_for_tab none tab = []
  filter_epm_projects_for_tab (some projects) tab =
      filter (is_on_tab (normalize_epm_settings_sort_text (some (text_or tab (text "active")))))
        projects
