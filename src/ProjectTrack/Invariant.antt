-- ===== src/ProjectTrack/Invariant.antt =====
-- The invariant of the control, and that openings and fetches keep it.
use jira_execution_planner.Base.{
  ℕ, suc, ◌<◌, ◌≡◌, refl, ap, subst, Bool, true, false, ◌&&◌, not, Option, none, some, List, [],
  ◌∷◌, ◌++◌, arith, if_cases,
}
use jira_execution_planner.Base.Lists.{
  any, All, any-middle, any-append, All-middle, All-append, All-map, non_empty,
}
use jira_execution_planner.Base.Text.{Text, text_beq, text_equality, trimmed}
use jira_execution_planner.Base.Dict.{is_there}
use jira_execution_planner.ProjectTrack.{Surface}
use jira_execution_planner.ProjectTrack.Control.{
  TrackTarget, OptionFetch, Write, Options, Control, active_key, is_token, change_scope,
  close_control, track_action, open_target, open_control, end_fetch,
}

-- The options on the screen were fetched for the issue that is open.
abbrev pub IsOwn {ℓ} : {O : Type ℓ} → Option TrackTarget → Option (Options O) → Type 0
IsOwn none o = Unit
IsOwn (some t) none = Unit
IsOwn (some t) (some o) = o.for_key ≡ t.key

abbrev pub IsOpen : Option TrackTarget → Text → Type 0
IsOpen none key = ⊥
IsOpen (some t) key = key ≡ t.key

-- A fetch whose token is the current one is for the open issue.
abbrev pub IsCurrent : Option TrackTarget → Option ℕ → ℕ → OptionFetch → Type 0
IsCurrent target token next f =
    (f.token < next) × (is_token token f.token ≡ true → IsOpen target f.key)

-- A write for the issue that the catch-up view of the scope waits for.
abbrev pub is_write_here : Text → Text → Write → Bool
is_write_here scope key w = w.is_catch_up && (text_beq scope w.scope && text_beq w.key key)

pub record AreWritesValid (scope : Text) (pending : List Text) (submitting : Bool)
    (writes : List Write) : Type 0 where
  pub writing : All (λ k. any (is_write_here scope k) writes ≡ true) pending
  pub saving : submitting ≡ true → any (λ w. not w.is_catch_up) writes ≡ true

forget_token :
    (target new_target : Option TrackTarget) (token : Option ℕ) (next : ℕ)
    (fetches : List OptionFetch)
    → All (IsCurrent target token next) fetches
    → All (IsCurrent new_target none next) fetches
forget_token target new_target token next fetches h = All-map (λ f i. (i.0, λ e. cc)) fetches h

older :
    (target new_target : Option TrackTarget) (token : Option ℕ) (next : ℕ)
    (fetches : List OptionFetch)
    → All (IsCurrent target token next) fetches
    → All (IsCurrent new_target (some next) (suc next)) fetches
older target new_target token next fetches h =
    All-map (λ f i. (omega (arith, i.0), λ e. absurd (ground (arith, i.0, e)))) fetches h

module _ {ℓ} {O : Type ℓ} where
  pub record AreFetchesValid (target : Option TrackTarget) (options : Option (Options O))
      (loading : Bool) (token : Option ℕ) (next : ℕ) (fetches : List OptionFetch) : Type 0 where
    pub own : IsOwn target options
    pub loads : loading ≡ is_there token
    pub current : All (IsCurrent target token next) fetches
    pub fetching : is_there token ≡ true → any (λ f. is_token token f.token) fetches ≡ true

  abbrev pub Fetches : Control O → Type 0
  Fetches c =
      AreFetchesValid c.active_target c.options c.options_loading c.request_token c.next_token
        c.fetches

  abbrev pub Writes : Control O → Type 0
  Writes c = AreWritesValid c.mutation_scope c.pending_keys c.submitting c.writes

  -- The invariant, with the outstanding fetches and writes.
  pub record Holds (fetches : List OptionFetch) (writes : List Write) (c : Control O) : Type 0 where
    pub fetches_valid : Fetches c
    pub writes_valid : Writes c
    pub fetches_are : c.fetches ≡ fetches
    pub writes_are : c.writes ≡ writes

  abbrev pub IsValid : Control O → Type 0
  IsValid c = Holds c.fetches c.writes c

  -- Without a token nothing loads.
  idle :
      (target new_target : Option TrackTarget) (options new_options : Option (Options O))
      (loading : Bool) (token : Option ℕ) (next : ℕ) (fetches : List OptionFetch)
      → AreFetchesValid target options loading token next fetches
      → IsOwn new_target new_options
      → AreFetchesValid new_target new_options false none next fetches
  idle target new_target options new_options loading token next fetches v own = record {
    own = own;
    loads = refl;
    current = forget_token target new_target token next fetches v.current;
    fetching = λ e. cc;
  }

  pub change_scope-IsValid :
      (surface : Surface) (scope : Text) (c : Control O)
      → IsValid c
      → IsValid (change_scope surface scope c)
  unfolding change_scope
  change_scope-IsValid surface scope c v = record {
    fetches_valid = idle _ none _ none _ _ _ _ v.fetches_valid tt;
    writes_valid = record { writing = tt; saving = v.writes_valid.saving };
    fetches_are = refl;
    writes_are = refl;
  }

  pub close_control-IsValid : (c : Control O) → IsValid c → IsValid (close_control c)
  unfolding close_control
  close_control-IsValid c v = record {
    fetches_valid = idle _ none _ c.options _ _ _ _ v.fetches_valid tt;
    writes_valid = v.writes_valid;
    fetches_are = refl;
    writes_are = refl;
  }

  open_target-IsValid : (t : TrackTarget) (c : Control O) → IsValid c → IsValid (open_target t c)
  unfolding open_target track_action
  open_target-IsValid t c v = record {
    fetches_valid = record {
      own = tt;
      loads = refl;
      current =
          All-append (IsCurrent (some t) (some c.next_token) (suc c.next_token)) c.fetches _
            (older c.active_target (some t) c.request_token c.next_token c.fetches
              v.fetches_valid.current)
            ((omega arith, λ e. refl), tt);
      fetching = λ _. ground (
        arith,
        any-append (λ f. is_token (some c.next_token) f.token) c.fetches
            (record { token = c.next_token; key = t.key } ∷ []),
      );
    };
    writes_valid = v.writes_valid;
    fetches_are = refl;
    writes_are = refl;
  }

  pub open_control-IsValid :
      (epic_key current_track : Option Text) (c : Control O)
      → IsValid c
      → IsValid (open_control epic_key current_track c)
  unfolding open_control
  open_control-IsValid epic_key current_track c v =
      if_cases IsValid (not (non_empty (trimmed epic_key))) (λ _. v)
        (λ _.
          if_cases IsValid (text_beq (active_key c.active_target) (trimmed epic_key))
            (λ _. close_control-IsValid c v) (λ _. open_target-IsValid _ c v))

  -- The fetch with the current token ends, with options of the open issue or with none new.
  pub end_fetch-IsValid :
      (before after : List OptionFetch) (f : OptionFetch) (writes : List Write) (c : Control O)
      → Holds (before ++ f ∷ after) writes c
      → IsValid (end_fetch (before ++ after) c)
  unfolding end_fetch
  end_fetch-IsValid before after f writes c v =
      let all =
        subst (All (IsCurrent c.active_target c.request_token c.next_token)) v.fetches_are
          v.fetches_valid.current in
      record {
        fetches_valid = record {
          own = v.fetches_valid.own;
          loads = refl;
          current =
              forget_token c.active_target c.active_target c.request_token c.next_token _
                (All-middle _ before after f all).1;
          fetching = λ e. cc;
        };
        writes_valid = v.writes_valid;
        fetches_are = refl;
        writes_are = refl;
      }

  -- A fetch with an old token is dropped.
  pub drop_fetch-IsValid :
      (before after : List OptionFetch) (f : OptionFetch) (c : Control O)
      → c.fetches ≡ before ++ f ∷ after
      → is_token c.request_token f.token ≡ false
      → IsValid c
      → IsValid (record c { fetches = before ++ after })
  drop_fetch-IsValid before after f c e old v =
      let all =
        subst (All (IsCurrent c.active_target c.request_token c.next_token)) e
          v.fetches_valid.current in
      record {
        fetches_valid = record {
          own = v.fetches_valid.own;
          loads = v.fetches_valid.loads;
          current = (All-middle _ before after f all).1;
          fetching = λ h. ground (
            arith,
            ap (any (λ g. is_token c.request_token g.token)) e,
            any-middle (λ g. is_token c.request_token g.token) before after f,
            v.fetches_valid.fetching h,
            old,
          );
        };
        writes_valid = v.writes_valid;
        fetches_are = refl;
        writes_are = refl;
      }
