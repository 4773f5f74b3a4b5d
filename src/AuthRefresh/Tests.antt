-- ===== src/AuthRefresh/Tests.antt =====
-- A tab through a focus, a blur and returns. The storage refuses writes.
use jira_execution_planner.Base.{ℕ, ◌≡◌, refl, true, false, none, List, [], ◌∷◌, arith}
use jira_execution_planner.Base.Lists.{All}
use jira_execution_planner.Base.Text.{text, text_beq}
use jira_execution_planner.AuthRefresh.{
  SharedStorage, unreadable, Moment, Event, install, blur, focus, fetched, body_read, unauthorized,
  succeeded, initial, handle_all, handle, install_auth_focus_refresh, handle_visible_return,
  note_dashboard_unfocused, refresh_auth_on_focus, start_refresh, is_out_of_sight, respond,
  respond_to, read_body, assign_location, finish, dispatch_long_absence_event,
  read_shared_refresh_at, write_shared_refresh_at, clear_shared_refresh_at,
}
use jira_execution_planner.AuthRefresh.Invariant.{Spaced, IsTimed}
use jira_execution_planner.AuthRefresh.Safety.{handle_all-Spaced}

program : Unit {0}
unfolding text_beq handle_all handle install_auth_focus_refresh handle_visible_return
    note_dashboard_unfocused refresh_auth_on_focus start_refresh is_out_of_sight respond respond_to
    read_body assign_location finish dispatch_long_absence_event read_shared_refresh_at
    write_shared_refresh_at clear_shared_refresh_at
program = tt

abbrev read_only : SharedStorage
read_only = record { item = unreadable; can_get = true; can_set = false; can_remove = true }

abbrev seen_at : ℕ → Moment
seen_at t = record { visibility = text "visible"; at = t; refresh_at = t }

-- The second focus comes too soon, the third after a long absence.
abbrev day : List Event
day =
    install (seen_at 1000)
    ∷ focus (seen_at 2000)
    ∷ fetched succeeded
    ∷ focus (seen_at 3000)
    ∷ blur (seen_at 4000)
    ∷ focus (seen_at 900000)
    ∷ fetched succeeded
    ∷ focus (seen_at 990000)
    ∷ fetched unauthorized
    ∷ body_read none
    ∷ []

day-IsTimed : All IsTimed day
day-IsTimed = (
  omega arith,
  (omega arith, (tt, (omega arith, (tt, (omega arith, (tt, (omega arith, (tt, (tt, tt))))))))),
)

posts-day : (handle_all day (initial read_only)).posts ≡ 990000 ∷ 900000 ∷ 1000 ∷ []
unfolding program
posts-day = refl

absences-day : (handle_all day (initial read_only)).absences ≡ 896000 ∷ []
unfolding program
absences-day = refl

locations-day :
    (handle_all day (initial read_only)).locations ≡ text "/login?reason=session_expired" ∷ []
unfolding program
locations-day = refl

handle_all-Spaced_example : Spaced (handle_all day (initial read_only)).posts
handle_all-Spaced_example = handle_all-Spaced read_only day day-IsTimed
