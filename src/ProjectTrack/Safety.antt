-- ===== src/ProjectTrack/Safety.antt =====
-- What the control shows in every reachable state.
use jira_execution_planner.Base.{
  ℕ, ◌≡◌, refl, sym, ◌∙◌, true, not, Option, none, some, List, [], ◌∷◌, arith, Bool-cases, inl, inr,
}
use jira_execution_planner.Base.Lists.{any, All}
use jira_execution_planner.Base.Text.{Text, text_beq, text_beq_iff, text_equality}
use jira_execution_planner.ProjectTrack.{Surface}
use jira_execution_planner.ProjectTrack.Control.{
  TrackTarget, OptionFetch, Control, active_key, is_token, create_control, Step, scope_changed,
  closed, opened, submitted, options_arrived, options_failed, write_succeeded, write_broke, Reach,
  start, later,
}
use jira_execution_planner.ProjectTrack.Invariant.{
  IsOwn, IsOpen, IsCurrent, is_write_here, IsValid, change_scope-IsValid, close_control-IsValid,
  open_control-IsValid,
}
use jira_execution_planner.ProjectTrack.Writes.{
  fetch_resolved-IsValid, fetch_failed-IsValid, submit_change-IsValid, write_resolved-IsValid,
  write_failed-IsValid,
}

open_fetch :
    (target : Option TrackTarget) (token : Option ℕ) (next : ℕ) (fetches : List OptionFetch)
    → All (IsCurrent target token next) fetches
    → any (λ f. is_token token f.token) fetches ≡ true
    → any (λ f. text_beq f.key (active_key target)) fetches ≡ true
open_fetch target token next [] h m = cc
open_fetch target token next (f ∷ fetches) h m = elim (Bool-cases (is_token token f.token)) [
  | inl now ↦ ground (arith, open_key target f.key (h.0.1 now))
  | inr old ↦ ground (arith, open_fetch target token next fetches h.1 (ground (arith, m, old)))
]
  where
    open_key :
        (target : Option TrackTarget) (key : Text)
        → IsOpen target key
        → text_beq key (active_key target) ≡ true
    open_key none key o = elim o [ ]
    open_key (some t) key o = (text_beq_iff key t.key).1 o

module _ {ℓ} {O : Type ℓ} where
  create-IsValid :
      (surface : Surface) (scope : Text) → IsValid (create_control {O = O} surface scope)
  create-IsValid surface scope = record {
    fetches_valid = record { own = tt; loads = refl; current = tt; fetching = λ e. cc };
    writes_valid = record { writing = tt; saving = λ e. cc };
    fetches_are = refl;
    writes_are = refl;
  }

  Step-IsValid : {c c' : Control O} → Step c c' → IsValid c → IsValid c'
  Step-IsValid (scope_changed surface scope c) v = change_scope-IsValid surface scope c v
  Step-IsValid (closed c) v = close_control-IsValid c v
  Step-IsValid (opened epic_key current_track c) v = open_control-IsValid epic_key current_track c v
  Step-IsValid (submitted target_track epic_key c) v =
      submit_change-IsValid target_track epic_key c v
  Step-IsValid (options_arrived before after f payload c e) v =
      fetch_resolved-IsValid before after f payload c e v
  Step-IsValid (options_failed before after f e c h) v = fetch_failed-IsValid before after f e c h v
  Step-IsValid (write_succeeded before after w response c e) v =
      write_resolved-IsValid before after w response c e v
  Step-IsValid (write_broke before after w e c h) v = write_failed-IsValid before after w e c h v

  Reach-IsValid :
      {surface : Surface} {scope : Text} {c : Control O} → Reach surface scope c → IsValid c
  Reach-IsValid {surface} {scope} start = create-IsValid surface scope
  Reach-IsValid (later r s) = Step-IsValid s (Reach-IsValid r)

  -- In every state that the user and the network can reach, in whatever order answers come, the
  -- options on the screen were fetched for the issue that is open.
  pub Reach-IsOwn :
      {surface : Surface} {scope : Text} {c : Control O}
      → Reach surface scope c
      → IsOwn c.active_target c.options
  Reach-IsOwn r = (Reach-IsValid r).fetches_valid.own

  -- Whatever the control shows as busy has work that is still to end.
  pub record IsBusy (c : Control O) : Type 0 where
    pub loads :
        c.options_loading ≡ true
        → any (λ f. text_beq f.key (active_key c.active_target)) c.fetches ≡ true
    pub writes : All (λ k. any (is_write_here c.mutation_scope k) c.writes ≡ true) c.pending_keys
    pub saves : c.submitting ≡ true → any (λ w. not w.is_catch_up) c.writes ≡ true

  -- In every reachable state, if the options load, a fetch for the open issue is outstanding;
  -- each issue shown as pending has an outstanding catch-up write of the scope on the screen; and
  -- if the planning view submits, a planning write is outstanding.
  pub Reach-IsBusy :
      {surface : Surface} {scope : Text} {c : Control O} → Reach surface scope c → IsBusy c
  Reach-IsBusy {c = c} r =
      let v = Reach-IsValid r in
      record {
        loads = λ h.
            open_fetch c.active_target c.request_token c.next_token c.fetches
              v.fetches_valid.current (v.fetches_valid.fetching (sym v.fetches_valid.loads ∙ h));
        writes = v.writes_valid.writing;
        saves = v.writes_valid.saving;
      }
