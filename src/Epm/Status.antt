-- ===== src/Epm/Status.antt =====
-- The normal form of a status text (`normalizeEpmSettingsStatus`) and the sets of statuses.
use jira_execution_planner.Base.{
  ℕ, Bool, true, false, ◌&&◌, ◌||◌, not, Option, none, some, List, [], ◌∷◌, leb, if◌then◌else◌,
}
use jira_execution_planner.Base.Text.{Text, text, text_equality, trim, trimmed, lower, is_space}

unfoldable pub normalize_epm_settings_sort_text : Option Text → Text
normalize_epm_settings_sort_text value = lower (trimmed value)

-- `[a-z0-9]`
abbrev is_word_unit : ℕ → Bool
is_word_unit c = (leb 97 c && leb c 122) || (leb 48 c && leb c 57)

-- `s.replace(/[p]+/g, ' ')`; `gap` says that the unit before satisfied `p` too.
unfoldable pub squeeze : (ℕ → Bool) → Bool → Text → Text
squeeze p gap [] = []
squeeze p gap (c ∷ s) =
    let in_gap = squeeze p true s in
    let in_word = squeeze p false s in
    if p c then (if gap then in_gap else 32 ∷ in_gap) else c ∷ in_word

unfoldable pub normalize_epm_settings_status : Option Text → Text
unfolding normalize_epm_settings_sort_text squeeze is_space
normalize_epm_settings_status value = trim (
    squeeze is_space false
      (squeeze (λ c. not (is_word_unit c)) false (normalize_epm_settings_sort_text value)))

-- `a || b`
abbrev pub first_of : Option Text → Option Text → Option Text
first_of none b = b
first_of (some []) b = b
first_of (some (c ∷ s)) b = some (c ∷ s)

abbrev pub active_states : List Text
active_states = text "pending" ∷ text "on track" ∷ text "at risk" ∷ text "off track" ∷ []

abbrev pub backlog_states : List Text
backlog_states = text "paused" ∷ text "todo" ∷ text "to do" ∷ []

abbrev pub archived_states : List Text
archived_states =
    text "completed"
    ∷ text "cancelled"
    ∷ text "archived"
    ∷ text "done"
    ∷ text "release"
    ∷ text "released"
    ∷ []

abbrev pub recent_completed_states : List Text
recent_completed_states = text "completed" ∷ text "done" ∷ []

abbrev pub terminal_issue_statuses : List Text
terminal_issue_statuses = text "done" ∷ text "killed" ∷ text "incomplete" ∷ []

abbrev pub completed_progress_statuses : List Text
completed_progress_statuses = text "done" ∷ text "incomplete" ∷ []

abbrev pub in_progress_statuses : List Text
in_progress_statuses = text "in progress" ∷ []
