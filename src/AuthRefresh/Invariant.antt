-- ===== src/AuthRefresh/Invariant.antt =====
-- The invariant of a tab, and that a refresh keeps it.
use jira_execution_planner.Base.{
  ℕ, ◌+◌, ◌≤◌, ◌<◌, ◌≡◌, refl, sym, ◌∙◌, if_cases, Bool, true, false, Option, List, [], ◌∷◌, arith,
}
use jira_execution_planner.Base.Lists.{length, All, non_empty, head_or}
use jira_execution_planner.Base.Text.{Text}
use jira_execution_planner.AuthRefresh.{
  auth_refresh_throttle_ms, long_absence_ms, SharedStorage, Request, Tab, Moment,
  refresh_auth_on_focus, Event, install, focus, visibility_change, dispatch_long_absence_event,
  is_out_of_sight, start_refresh, is_throttled, max, read_shared_refresh_at,
}

-- Times, the latest first, of which each is at least the throttle after the one before it.
abbrev pub Spaced : List ℕ → Type 0
Spaced [] = Unit
Spaced (t ∷ []) = Unit
Spaced (t ∷ s ∷ times) = (s + auth_refresh_throttle_ms ≤ t) × Spaced (s ∷ times)

abbrev pub IsLong : Request → Type 0
IsLong r = r.long_absence ≡ true → long_absence_ms < r.unfocused_ms

-- The clock shows a time after 1970.
abbrev pub IsTimed : Event → Type 0
IsTimed (install m) = 0 < m.refresh_at
IsTimed (focus m) = 0 < m.refresh_at
IsTimed (visibility_change m) = 0 < m.refresh_at
IsTimed _ = Unit

pub record IsValid (tab : Tab) : Type 0 where
  pub spaced : Spaced tab.posts
  pub latest : head_or 0 tab.posts ≡ tab.last_auth_refresh_at
  pub positive : All (λ t. 0 < t) tab.posts
  pub flagged : tab.refresh_in_flight ≡ non_empty tab.requests
  pub single : length tab.requests ≤ 1
  pub long_requests : All IsLong tab.requests
  pub long_absences : All (λ ms. long_absence_ms < ms) tab.absences

Spaced-cons :
    (t : ℕ) (times : List ℕ)
    → (0 < head_or 0 times → head_or 0 times + auth_refresh_throttle_ms ≤ t)
    → All (λ s. 0 < s) times
    → Spaced times
    → Spaced (t ∷ times)
Spaced-cons t [] h p s = tt
Spaced-cons t (s ∷ times) h p k = (h p.0, k)

-- Fields that the invariant does not read may change.
pub IsValid-unread :
    (tab : Tab) (since : Option ℕ) (listening : Bool) (shared : SharedStorage)
    (locations : List Text)
    → IsValid tab
    → IsValid (record tab {
      unfocused_since = since;
      listeners_installed = listening;
      shared = shared;
      locations = locations;
    })
IsValid-unread tab since listening shared locations v = record {
  spaced = v.spaced;
  latest = v.latest;
  positive = v.positive;
  flagged = v.flagged;
  single = v.single;
  long_requests = v.long_requests;
  long_absences = v.long_absences;
}

pub dispatch-IsValid :
    (ms : ℕ) (tab : Tab)
    → long_absence_ms < ms
    → IsValid tab
    → IsValid (dispatch_long_absence_event ms tab)
unfolding dispatch_long_absence_event
dispatch-IsValid ms tab h v = record {
  spaced = v.spaced;
  latest = v.latest;
  positive = v.positive;
  flagged = v.flagged;
  single = v.single;
  long_requests = v.long_requests;
  long_absences = (h, v.long_absences);
}

none_running : (requests : List Request) → non_empty requests ≡ false → requests ≡ []
none_running [] h = refl
none_running (r ∷ requests) h = cc

start-IsValid :
    (now : ℕ) (long : Bool) (ms last : ℕ) (tab : Tab)
    → 0 < now
    → (long ≡ true → long_absence_ms < ms)
    → tab.refresh_in_flight ≡ false
    → tab.last_auth_refresh_at ≤ last
    → is_throttled now last ≡ false
    → IsValid tab
    → IsValid (start_refresh now long ms tab)
unfolding start_refresh
start-IsValid now long ms last tab late l free older idle_long v =
    let idle = none_running tab.requests (sym v.flagged ∙ free) in
    record {
      spaced = Spaced-cons now tab.posts (λ p. ground (arith, v.latest, p)) v.positive v.spaced;
      latest = refl;
      positive = (late, v.positive);
      flagged = refl;
      single = rw idle (omega arith);
      long_requests = (l, v.long_requests);
      long_absences = v.long_absences;
    }

pub refresh-IsValid :
    (m : Moment) (long : Bool) (ms : ℕ) (tab : Tab)
    → 0 < m.refresh_at
    → (long ≡ true → long_absence_ms < ms)
    → IsValid tab
    → IsValid (refresh_auth_on_focus m long ms tab)
unfolding refresh_auth_on_focus
refresh-IsValid m long ms tab late l v =
    let last = max tab.last_auth_refresh_at (read_shared_refresh_at tab.shared) in
    if_cases IsValid (is_out_of_sight m.visibility) (λ _. v)
      (λ _.
        if_cases IsValid tab.refresh_in_flight (λ _. v)
          (λ free.
            if_cases IsValid (is_throttled m.refresh_at last)
              (λ _. if_cases IsValid long (λ h. dispatch-IsValid ms tab (l h) v) (λ _. v))
              (λ quiet.
                start-IsValid m.refresh_at long ms last tab late l free (ground arith) quiet v)))
