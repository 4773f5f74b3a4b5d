-- ===== src/ProjectTrack/Tests.antt =====
-- The control through an opening that a second one overtakes, a write, and its failure.
use jira_execution_planner.Base.{ℕ, ◌≡◌, refl, true, false, none, some, [], ◌∷◌}
use jira_execution_planner.Base.Text.{text, text_beq, trim, trimmed, lower}
use jira_execution_planner.MutationQueue.{set_add, set_delete}
use jira_execution_planner.ProjectTrack.{
  catch_up, normalize_project_track_value, filter_project_track_options,
  build_project_track_action_analytics_params,
}
use jira_execution_planner.ProjectTrack.Control.{
  OptionFetch, Write, Control, NetworkError, create_control, open_control, open_target,
  close_control, track_action, fetch_resolved, end_fetch, submit_change, start_write, apply_local,
  write_failed, end_write, recover, Reach, start, later, opened, options_arrived, submitted,
}
use jira_execution_planner.ProjectTrack.Invariant.{IsOwn}
use jira_execution_planner.ProjectTrack.Safety.{Reach-IsOwn, IsBusy, Reach-IsBusy}

program : Unit {0}
unfolding text_beq trim trimmed lower set_add set_delete normalize_project_track_value
    filter_project_track_options build_project_track_action_analytics_params open_control
    open_target close_control track_action fetch_resolved end_fetch submit_change start_write
    apply_local write_failed end_write recover
program = tt

options-blank :
    filter_project_track_options
      (some (text " flexible") ∷ none ∷ some (text "COMMITTED") ∷ [])
      (some (text "Flexible"))
    ≡ text "Committed" ∷ []
unfolding program
options-blank = refl

abbrev fresh : Control ℕ
fresh = create_control catch_up (text "s1")

abbrev both_open : Control ℕ
both_open =
    open_control (some (text "B-2")) (some (text "Flexible"))
      (open_control (some (text " A-1")) none fresh)

abbrev fetch_a : OptionFetch
fetch_a = record { token = 0; key = text "A-1" }

abbrev fetch_b : OptionFetch
fetch_b = record { token = 1; key = text "B-2" }

fetches-both : both_open.fetches ≡ fetch_a ∷ fetch_b ∷ []
unfolding program
fetches-both = refl

abbrev overtaken : Control ℕ
overtaken = fetch_resolved fetch_a (fetch_b ∷ []) 7 both_open

options-overtaken : overtaken.options ≡ none
unfolding program
options-overtaken = refl

fetches-overtaken : overtaken.fetches ≡ fetch_b ∷ []
unfolding program
fetches-overtaken = refl

abbrev shown : Control ℕ
shown = fetch_resolved fetch_b [] 8 overtaken

options-shown : shown.options ≡ some (record { for_key = text "B-2"; payload = 8 })
unfolding program
options-shown = refl

abbrev written : Control ℕ
written = submit_change (some (text "Committed")) (some (text "B-2")) shown

written-Reach : Reach catch_up (text "s1") written
written-Reach =
    later
      (later
        (later
          (later (later start (opened (some (text " A-1")) none fresh)) (
            opened (some (text "B-2")) (some (text "Flexible"))
              (open_control (some (text " A-1")) none fresh)))
          (options_arrived [] (fetch_b ∷ []) fetch_a 7 both_open fetches-both))
        (options_arrived [] [] fetch_b 8 overtaken fetches-overtaken))
      (submitted (some (text "Committed")) (some (text "B-2")) shown)

pending-written : written.pending_keys ≡ text "B-2" ∷ []
unfolding program
pending-written = refl

abbrev the_write : Write
the_write = record {
  key = text "B-2";
  target = text "Committed";
  prior_track = text "Flexible";
  scope = text "s1";
  is_catch_up = true;
  params = build_project_track_action_analytics_params catch_up (some (text "Committed")) none;
}

writes-written : written.writes ≡ the_write ∷ []
unfolding program
writes-written = refl

abbrev offline : NetworkError
offline = record { message = none; code = none; needs_login = false }

abbrev failed : Control ℕ
failed = write_failed the_write [] offline written

applied-failed :
    failed.applied
    ≡ (text "B-2", some (text "Flexible")) ∷ (text "B-2", some (text "Committed")) ∷ []
unfolding program
applied-failed = refl

pending-failed : failed.pending_keys ≡ []
unfolding program
pending-failed = refl

error-failed : failed.error ≡ text "Failed to change Project Track."
unfolding program
error-failed = refl

Reach-IsOwn_example : IsOwn written.active_target written.options
Reach-IsOwn_example = Reach-IsOwn written-Reach

Reach-IsBusy_example : IsBusy written
Reach-IsBusy_example = Reach-IsBusy written-Reach
