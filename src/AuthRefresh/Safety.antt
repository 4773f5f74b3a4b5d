-- ===== src/AuthRefresh/Safety.antt =====
-- What holds of a tab after any events.
use jira_execution_planner.Base.{
  ◌≤◌, ◌<◌, ◌≡◌, refl, ap, subst, ◌∙◌, if_cases, true, Option, none, some, List, [], ◌∷◌, arith,
  ltb,
}
use jira_execution_planner.Base.Lists.{length, All, non_empty}
use jira_execution_planner.Base.Text.{Text, text, text_beq}
use jira_execution_planner.AuthRefresh.{
  Phase, long_absence_ms, SharedStorage, Request, fetching, reading_body, Tab, Moment, initial,
  Outcome, unauthorized, succeeded, refused, failed, respond_to, respond, read_body,
  assign_location, note_dashboard_unfocused, handle_visible_return, handle_visibility_change,
  install_auth_focus_refresh, Event, install, blur, focus, visibility_change, fetched, body_read,
  other_tab, handle, handle_all, finish, dispatch_long_absence_event, is_out_of_sight, absence,
}
use jira_execution_planner.AuthRefresh.Invariant.{
  Spaced, IsLong, IsTimed, IsValid, IsValid-unread, dispatch-IsValid, refresh-IsValid,
}

note-IsValid : (m : Moment) (tab : Tab) → IsValid tab → IsValid (note_dashboard_unfocused m tab)
unfolding note_dashboard_unfocused
note-IsValid m tab v =
    elim tab.unfocused_since
      as (λ o.
        IsValid (elim o [ none ↦ record tab { unfocused_since = some m.at } | some _ ↦ tab ])) [
          | none ↦ IsValid-unread tab (some m.at) tab.listeners_installed tab.shared tab.locations v
          | some _ ↦ v
        ]

return-IsValid :
    (m : Moment) (tab : Tab)
    → 0 < m.refresh_at
    → IsValid tab
    → IsValid (handle_visible_return m tab)
unfolding handle_visible_return
return-IsValid m tab late v =
    if_cases IsValid (is_out_of_sight m.visibility) (λ _. note-IsValid m tab v)
      (λ _.
        refresh-IsValid m (ltb long_absence_ms (absence tab.unfocused_since m.at))
          (absence tab.unfocused_since m.at) (record tab { unfocused_since = none }) late
          (λ h. ground arith)
          (IsValid-unread tab none tab.listeners_installed tab.shared tab.locations v))

finish-IsValid :
    (r : Request) (others : List Request) (tab : Tab)
    → tab.requests ≡ r ∷ others
    → IsValid tab
    → IsValid (finish others tab)
unfolding finish
finish-IsValid r [] tab e v = record {
  spaced = v.spaced;
  latest = v.latest;
  positive = v.positive;
  flagged = refl;
  single = omega arith;
  long_requests = tt;
  long_absences = v.long_absences;
}
finish-IsValid r (r' ∷ others) tab e v = absurd (omega (arith, v.single, ap length e))

respond_to-IsValid :
    (r : Request) (others : List Request) (outcome : Outcome) (tab : Tab)
    → tab.requests ≡ r ∷ others
    → IsValid tab
    → IsValid (respond_to r others outcome tab)
unfolding respond_to dispatch_long_absence_event
respond_to-IsValid r others unauthorized tab e v = record {
  spaced = v.spaced;
  latest = v.latest;
  positive = v.positive;
  flagged = v.flagged ∙ ap non_empty e;
  single = omega (arith, v.single, ap length e);
  long_requests = subst (All IsLong) e v.long_requests;
  long_absences = v.long_absences;
}
respond_to-IsValid r others succeeded tab e v =
    if_cases (λ t. IsValid (finish others t)) r.long_absence
      (λ long.
        finish-IsValid r others (dispatch_long_absence_event r.unfocused_ms tab) e
          (dispatch-IsValid r.unfocused_ms tab ((subst (All IsLong) e v.long_requests).0 long) v))
      (λ _. finish-IsValid r others tab e v)
respond_to-IsValid r others refused tab e v = finish-IsValid r others tab e v
respond_to-IsValid r others failed tab e v = finish-IsValid r others tab e v

respond-IsValid : (outcome : Outcome) (tab : Tab) → IsValid tab → IsValid (respond outcome tab)
unfolding respond
respond-IsValid outcome tab v = go tab.requests refl
  where
    of_phase :
        (r : Request) (others : List Request) (phase : Phase)
        → tab.requests ≡ r ∷ others
        → IsValid (elim phase [ fetching ↦ respond_to r others outcome tab | reading_body ↦ tab ])
    of_phase r others fetching e = respond_to-IsValid r others outcome tab e v
    of_phase r others reading_body e = v

    go :
        (requests : List Request)
        → tab.requests ≡ requests
        → IsValid (elim requests [
          | [] ↦ tab
          | r ∷ others ↦ elim r.phase [
            | fetching ↦ respond_to r others outcome tab
            | reading_body ↦ tab
          ]
        ])
    go [] e = v
    go (r ∷ others) e = of_phase r others r.phase e

assign-IsValid :
    (login_url : Option Text) (r : Request) (others : List Request) (tab : Tab)
    → tab.requests ≡ r ∷ others
    → IsValid tab
    → IsValid (finish others (assign_location login_url tab))
unfolding assign_location
assign-IsValid none r others tab e v = finish-IsValid r others (assign_location none tab) e (
    IsValid-unread tab tab.unfocused_since tab.listeners_installed tab.shared
      (assign_location none tab).locations v)
assign-IsValid (some login_url) r others tab e v =
    finish-IsValid r others (assign_location (some login_url) tab) e (
      IsValid-unread tab tab.unfocused_since tab.listeners_installed tab.shared
        (assign_location (some login_url) tab).locations v)

read_body-IsValid :
    (login_url : Option Text) (tab : Tab) → IsValid tab → IsValid (read_body login_url tab)
unfolding read_body
read_body-IsValid login_url tab v = go tab.requests refl
  where
    of_phase :
        (r : Request) (others : List Request) (phase : Phase)
        → tab.requests ≡ r ∷ others
        → IsValid (elim phase [
          | fetching ↦ tab
          | reading_body ↦ finish others (assign_location login_url tab)
        ])
    of_phase r others fetching e = v
    of_phase r others reading_body e = assign-IsValid login_url r others tab e v

    go :
        (requests : List Request)
        → tab.requests ≡ requests
        → IsValid (elim requests [
          | [] ↦ tab
          | r ∷ others ↦ elim r.phase [
            | fetching ↦ tab
            | reading_body ↦ finish others (assign_location login_url tab)
          ]
        ])
    go [] e = v
    go (r ∷ others) e = of_phase r others r.phase e

handle-IsValid : (e : Event) (tab : Tab) → IsTimed e → IsValid tab → IsValid (handle e tab)
unfolding handle install_auth_focus_refresh handle_visibility_change
handle-IsValid (install m) tab t v =
    if_cases IsValid tab.listeners_installed (λ _. v)
      (λ _.
        return-IsValid m (record tab { listeners_installed = true }) t
          (IsValid-unread tab tab.unfocused_since true tab.shared tab.locations v))
handle-IsValid (blur m) tab t v =
    if_cases IsValid tab.listeners_installed (λ _. note-IsValid m tab v) (λ _. v)
handle-IsValid (focus m) tab t v =
    if_cases IsValid tab.listeners_installed (λ _. return-IsValid m tab t v) (λ _. v)
handle-IsValid (visibility_change m) tab t v =
    if_cases IsValid tab.listeners_installed
      (λ _.
        if_cases IsValid (text_beq m.visibility (text "hidden")) (λ _. note-IsValid m tab v)
          (λ _. return-IsValid m tab t v))
      (λ _. v)
handle-IsValid (fetched outcome) tab t v = respond-IsValid outcome tab v
handle-IsValid (body_read login_url) tab t v = read_body-IsValid login_url tab v
handle-IsValid (other_tab written) tab t v =
    IsValid-unread tab tab.unfocused_since tab.listeners_installed
      (record tab.shared { item = written }) tab.locations v

handle_all-IsValid :
    (events : List Event) (tab : Tab)
    → All IsTimed events
    → IsValid tab
    → IsValid (handle_all events tab)
unfolding handle_all
handle_all-IsValid [] tab t v = v
handle_all-IsValid (e ∷ events) tab t v =
    handle_all-IsValid events (handle e tab) t.1 (handle-IsValid e tab t.0 v)

run-IsValid :
    (storage : SharedStorage) (events : List Event)
    → All IsTimed events
    → IsValid (handle_all events (initial storage))
run-IsValid storage events t = handle_all-IsValid events (initial storage) t (record {
  spaced = tt;
  latest = refl;
  positive = tt;
  flagged = refl;
  single = omega arith;
  long_requests = tt;
  long_absences = tt;
})

-- Whatever happens, in whatever order, and whether the storage works or not: two refreshes of a
-- tab are at least the throttle apart, provided that the clock shows a time after 1970.
pub handle_all-Spaced :
    (storage : SharedStorage) (events : List Event)
    → All IsTimed events
    → Spaced (handle_all events (initial storage)).posts
handle_all-Spaced storage events t = (run-IsValid storage events t).spaced

-- Under the same condition at most one refresh runs, and `refreshInFlight` is set exactly while
-- one does.
pub handle_all-single :
    (storage : SharedStorage) (events : List Event)
    → All IsTimed events
    → let tab = handle_all events (initial storage) in
      (length tab.requests ≤ 1) × (tab.refresh_in_flight ≡ non_empty tab.requests)
handle_all-single storage events t = let v = run-IsValid storage events t in (v.single, v.flagged)

-- Under the same condition each long-absence event reports an absence over the limit.
pub handle_all-IsLong :
    (storage : SharedStorage) (events : List Event)
    → All IsTimed events
    → All (λ ms. long_absence_ms < ms) (handle_all events (initial storage)).absences
handle_all-IsLong storage events t = (run-IsValid storage events t).long_absences
