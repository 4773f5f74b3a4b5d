-- ===== src/AuthRefresh.antt =====
-- frontend/src/api/authFocusRefresh.js and authRefreshContract.js: the session refresh of a tab
-- that gets the focus back. The module's four variables are fields of `Tab`; the async body of a
-- refresh that waits for the network is a `Request`. Times are milliseconds of `Date.now()`.
pub mod Invariant
pub mod Safety
mod Tests
use jira_execution_planner.Base.{
  ℕ, ◌+◌, ◌-◌, Bool, true, false, ◌&&◌, ◌||◌, not, Option, none, some, List, [], ◌∷◌, ltb, nat_beq,
  if◌then◌else◌,
}
use jira_execution_planner.Base.Lists.{non_empty}
use jira_execution_planner.Base.Text.{Text, text, text_beq}
use jira_execution_planner.Planning.Teams.{or_text}

abbrev pub auth_refresh_throttle_ms : ℕ
auth_refresh_throttle_ms = 60000

abbrev pub long_absence_ms : ℕ
long_absence_ms = 720000

-- What `localStorage` holds under AUTH_REFRESH_SHARED_STORAGE_KEY. Every tab of the dashboard
-- writes times only; any other text reads as 0.
pub data SharedItem : Type 0 where
  missing unreadable : SharedItem
  timestamp : ℕ → SharedItem

-- The storage, each of whose methods may throw.
pub record SharedStorage : Type 0 where
  pub item : SharedItem
  pub can_get : Bool
  pub can_set : Bool
  pub can_remove : Bool

-- Where the async body of a refresh waits: for `fetch`, or for `response.json()` after a 401.
pub data Phase : Type 0 where
  fetching reading_body : Phase

pub record Request : Type 0 where
  pub long_absence : Bool
  pub unfocused_ms : ℕ
  pub phase : Phase

-- The variables of the module, the storage, the running requests, and what the tab did: the times
-- of its POSTs, the details of its long-absence events and its navigations, the latest first.
pub record Tab : Type 0 where
  pub last_auth_refresh_at : ℕ
  pub unfocused_since : Option ℕ
  pub refresh_in_flight : Bool
  pub listeners_installed : Bool
  pub shared : SharedStorage
  pub requests : List Request
  pub posts : List ℕ
  pub absences : List ℕ
  pub locations : List Text

-- `document.visibilityState`, and the clock when the handler and when the refresh reads it
pub record Moment : Type 0 where
  pub visibility : Text
  pub at : ℕ
  pub refresh_at : ℕ

abbrev pub initial : SharedStorage → Tab
initial storage = record {
  last_auth_refresh_at = 0;
  unfocused_since = none;
  refresh_in_flight = false;
  listeners_installed = false;
  shared = storage;
  requests = [];
  posts = [];
  absences = [];
  locations = [];
}

abbrev pub item_time : SharedItem → ℕ
item_time missing = 0
item_time unreadable = 0
item_time (timestamp t) = t

unfoldable pub read_shared_refresh_at : SharedStorage → ℕ
read_shared_refresh_at s = if s.can_get then item_time s.item else 0

unfoldable pub write_shared_refresh_at : ℕ → SharedStorage → SharedStorage
write_shared_refresh_at t s = if s.can_set then record s { item = timestamp t } else s

unfoldable pub clear_shared_refresh_at : SharedStorage → SharedStorage
clear_shared_refresh_at s = if s.can_remove then record s { item = missing } else s

unfoldable pub dispatch_long_absence_event : ℕ → Tab → Tab
dispatch_long_absence_event ms tab = record tab { absences = ms ∷ tab.absences }

-- `document.visibilityState && document.visibilityState !== 'visible'`
unfoldable pub is_out_of_sight : Text → Bool
is_out_of_sight visibility = non_empty visibility && not (text_beq visibility (text "visible"))

abbrev pub max : ℕ → ℕ → ℕ
max a b = if ltb a b then b else a

unfoldable pub start_refresh : ℕ → Bool → ℕ → Tab → Tab
start_refresh now long_absence unfocused_ms tab = record tab {
  last_auth_refresh_at = now;
  shared = write_shared_refresh_at now tab.shared;
  refresh_in_flight = true;
  requests =
      record { long_absence = long_absence; unfocused_ms = unfocused_ms; phase = fetching }
      ∷ tab.requests;
  posts = now ∷ tab.posts;
}

-- `last !== 0 && now - last < AUTH_REFRESH_THROTTLE_MS`, with `now < last + t` for `now - last < t`
abbrev pub is_throttled : ℕ → ℕ → Bool
is_throttled now last = not (nat_beq last 0) && ltb now (last + auth_refresh_throttle_ms)

-- `refreshAuthOnFocus` up to its first `await`
unfoldable pub refresh_auth_on_focus : Moment → Bool → ℕ → Tab → Tab
refresh_auth_on_focus m long_absence unfocused_ms tab =
    let last = max tab.last_auth_refresh_at (read_shared_refresh_at tab.shared) in
    if is_out_of_sight m.visibility
    then tab
    else if tab.refresh_in_flight
    then tab
    else if is_throttled m.refresh_at last
    then (if long_absence then dispatch_long_absence_event unfocused_ms tab else tab)
    else start_refresh m.refresh_at long_absence unfocused_ms tab

-- What `fetch` gives: a response with status 401, with an `ok` status, with another, or a throw.
pub data Outcome : Type 0 where
  unauthorized succeeded refused failed : Outcome

-- `finally`, when the request leaves the running ones
unfoldable pub finish : List Request → Tab → Tab
finish others tab = record tab { refresh_in_flight = false; requests = others }

unfoldable pub respond_to : Request → List Request → Outcome → Tab → Tab
respond_to r others unauthorized tab = record tab {
  shared = clear_shared_refresh_at tab.shared;
  requests = record r { phase = reading_body } ∷ others;
}
respond_to r others succeeded tab =
    finish others (if r.long_absence then dispatch_long_absence_event r.unfocused_ms tab else tab)
respond_to r others refused tab = finish others tab
respond_to r others failed tab = finish others tab

-- `window.location.assign(body.loginUrl || '/login?reason=session_expired')`
unfoldable pub assign_location : Option Text → Tab → Tab
assign_location none tab = record tab {
  locations = text "/login?reason=session_expired" ∷ tab.locations;
}
assign_location (some login_url) tab = record tab {
  locations = or_text login_url (text "/login?reason=session_expired") ∷ tab.locations;
}

-- The running request goes on: with the outcome of `fetch`, or with the `loginUrl` of the body.
unfoldable pub respond : Outcome → Tab → Tab
respond outcome tab = elim tab.requests [
  | [] ↦ tab
  | r ∷ others ↦ elim r.phase [ fetching ↦ respond_to r others outcome tab | reading_body ↦ tab ]
]

unfoldable pub read_body : Option Text → Tab → Tab
read_body login_url tab = elim tab.requests [
  | [] ↦ tab
  | r ∷ others ↦ elim r.phase [
    | fetching ↦ tab
    | reading_body ↦ finish others (assign_location login_url tab)
  ]
]

unfoldable pub note_dashboard_unfocused : Moment → Tab → Tab
note_dashboard_unfocused m tab = elim tab.unfocused_since [
  | none ↦ record tab { unfocused_since = some m.at }
  | some _ ↦ tab
]

-- A clock that went back gives a negative absence, which is not a long one either.
abbrev pub absence : Option ℕ → ℕ → ℕ
absence none now = 0
absence (some since) now = now - since

unfoldable pub handle_visible_return : Moment → Tab → Tab
handle_visible_return m tab =
    let unfocused_ms = absence tab.unfocused_since m.at in
    if is_out_of_sight m.visibility
    then note_dashboard_unfocused m tab
    else refresh_auth_on_focus m (ltb long_absence_ms unfocused_ms) unfocused_ms
        (record tab { unfocused_since = none })

unfoldable pub handle_visibility_change : Moment → Tab → Tab
handle_visibility_change m tab =
    if text_beq m.visibility (text "hidden")
    then note_dashboard_unfocused m tab
    else handle_visible_return m tab

unfoldable pub install_auth_focus_refresh : Moment → Tab → Tab
install_auth_focus_refresh m tab =
    if tab.listeners_installed
    then tab
    else handle_visible_return m (record tab { listeners_installed = true })

-- What can happen to the tab. Another tab may change the shared item at any time.
pub data Event : Type 0 where
  install blur focus visibility_change : Moment → Event
  fetched : Outcome → Event
  body_read : Option Text → Event
  other_tab : SharedItem → Event

-- A window event that comes when the listeners are installed.
abbrev pub if_listening : Tab → Tab → Tab
if_listening tab next = if tab.listeners_installed then next else tab

unfoldable pub handle : Event → Tab → Tab
handle (install m) tab = install_auth_focus_refresh m tab
handle (blur m) tab = if_listening tab (note_dashboard_unfocused m tab)
handle (focus m) tab = if_listening tab (handle_visible_return m tab)
handle (visibility_change m) tab = if_listening tab (handle_visibility_change m tab)
handle (fetched outcome) tab = respond outcome tab
handle (body_read login_url) tab = read_body login_url tab
handle (other_tab written) tab = record tab { shared = record tab.shared { item = written } }

unfoldable pub handle_all : List Event → Tab → Tab
handle_all [] tab = tab
handle_all (e ∷ events) tab = handle_all events (handle e tab)
