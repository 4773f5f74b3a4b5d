-- ===== src/ProjectTrack/Control.antt =====
-- frontend/src/eng/useEngProjectTrackTransitions.js: the control that changes an epic's project
-- track. The state variables and refs of the hook are the fields of `Control`; a request token
-- is a number that no earlier token has. An async function is cut at its `await`: a fetch of
-- options and a write are values of `fetches` and `writes` until the network answers, in any
-- order. A handler runs with the state of the last render.
use jira_execution_planner.Base.{
  ℕ, suc, ◌+◌, ◌≡◌, Bool, true, false, ◌&&◌, ◌||◌, not, Option, none, some, List, [], ◌∷◌, ◌++◌,
  nat_beq, if◌then◌else◌,
}
use jira_execution_planner.Base.Lists.{includes, non_empty}
use jira_execution_planner.Base.Text.{Text, text, text_beq, text_equality, trimmed, or_empty}
use jira_execution_planner.Planning.Teams.{or_text}
use jira_execution_planner.MutationQueue.{set_add, set_delete}
use jira_execution_planner.ProjectTrack.{
  Surface, is_catch_up, TrackParams, build_project_track_action_analytics_params,
}

pub record TrackTarget : Type 0 where
  pub key : Text
  pub current_track : Text

-- A fetch of the options, with the token of its opening
pub record OptionFetch : Type 0 where
  pub token : ℕ
  pub key : Text

-- The body of `submitProjectTrackChange` after its first part, with what it captured
pub record Write : Type 0 where
  pub key : Text
  pub target : Text
  pub prior_track : Text
  pub scope : Text
  pub is_catch_up : Bool
  pub params : TrackParams

-- The options of an issue are a value of `O`; the field says for which issue they were fetched.
pub record Options {ℓ} (O : Type ℓ) : Type ℓ where
  pub for_key : Text
  pub payload : O

pub record Control {ℓ} (O : Type ℓ) : Type ℓ where
  pub active_target : Option TrackTarget
  pub options : Option (Options O)
  pub options_loading : Bool
  pub submitting : Bool
  pub error : Text
  pub error_code : Text
  pub result : Option Text
  pub pending_keys : List Text
  pub request_token : Option ℕ
  pub next_token : ℕ
  pub source_surface : Surface
  pub mutation_scope : Text
  pub fetches : List OptionFetch
  pub writes : List Write
  pub applied : List (Text × Option Text)
  pub tracked : List (Text × TrackParams)
  pub recoveries : ℕ

-- An error of the network; `needs_login` is whether `authRecoveryLoginUrl` finds a page.
pub record NetworkError : Type 0 where
  pub message : Option Text
  pub code : Option Text
  pub needs_login : Bool

-- What a write answers.
pub record WriteResponse : Type 0 where
  pub result : Option Text
  pub to_track : Option Text
  pub from_track : Option Text

abbrev pub active_key : Option TrackTarget → Text
active_key none = []
active_key (some t) = t.key

abbrev pub is_token : Option ℕ → ℕ → Bool
is_token none token = false
is_token (some t) token = nat_beq t token

-- `priorTrack`: the track of the open target, if it is this issue
abbrev pub prior_of : Option TrackTarget → Text → Text
prior_of none key = []
prior_of (some t) key = if text_beq t.key key then t.current_track else []

-- `response?.toTrack ?? response?.fromTrack`
abbrev pub canonical_track : WriteResponse → Option Text
canonical_track r = elim r.to_track [ none ↦ r.from_track | some t ↦ some t ]

module _ {ℓ} {O : Type ℓ} where
  abbrev pub create_control : Surface → Text → Control O
  create_control surface scope = record {
    active_target = none;
    options = none;
    options_loading = false;
    submitting = false;
    error = [];
    error_code = [];
    result = none;
    pending_keys = [];
    request_token = none;
    next_token = 0;
    source_surface = surface;
    mutation_scope = scope;
    fetches = [];
    writes = [];
    applied = [];
    tracked = [];
    recoveries = 0;
  }

  -- The effect on a change of sprint, surface or scope
  unfoldable pub change_scope : Surface → Text → Control O → Control O
  change_scope surface scope c = record c {
    active_target = none;
    options = none;
    options_loading = false;
    error = [];
    error_code = [];
    result = none;
    pending_keys = [];
    request_token = none;
    source_surface = surface;
    mutation_scope = scope;
  }

  unfoldable pub close_control : Control O → Control O
  close_control c = record c {
    active_target = none;
    options_loading = false;
    error = [];
    error_code = [];
    request_token = none;
  }

  unfoldable pub track_action : Text → TrackParams → Control O → Control O
  track_action action params c = record c { tracked = (action, params) ∷ c.tracked }

  -- `openProjectTrackControl` from the new target on
  unfoldable pub open_target : TrackTarget → Control O → Control O
  open_target target c =
      track_action (text "project_track_options_open")
        (build_project_track_action_analytics_params c.source_surface none none)
        (record c {
          result = none;
          active_target = some target;
          error = [];
          error_code = [];
          request_token = some c.next_token;
          next_token = suc c.next_token;
          options = none;
          options_loading = true;
          fetches = c.fetches ++ record { token = c.next_token; key = target.key } ∷ [];
        })

  unfoldable pub open_control : Option Text → Option Text → Control O → Control O
  open_control epic_key current_track c =
      let key = trimmed epic_key in
      if not (non_empty key)
      then c
      else if text_beq (active_key c.active_target) key
      then close_control c
      else open_target (record { key = key; current_track = or_empty current_track }) c

  -- `finally`, while the token is the current one
  unfoldable pub end_fetch : List OptionFetch → Control O → Control O
  end_fetch others c = record c { options_loading = false; request_token = none; fetches = others }

  unfoldable pub fetch_resolved : OptionFetch → List OptionFetch → O → Control O → Control O
  fetch_resolved f others payload c =
      if is_token c.request_token f.token
      then end_fetch others
          (record c { options = some (record { for_key = f.key; payload = payload }) })
      else record c { fetches = others }

  unfoldable pub recover : NetworkError → Control O → Control O
  recover e c = if e.needs_login then record c { recoveries = c.recoveries + 1 } else c

  unfoldable pub fetch_failed :
      OptionFetch → List OptionFetch → NetworkError → Control O → Control O
  fetch_failed f others e c =
      if is_token c.request_token f.token
      then end_fetch others (record (recover e c) {
        error = or_text (or_empty e.message) (text "Failed to load Project Track options.");
        error_code = or_empty e.code;
      })
      else record c { fetches = others }

  unfoldable pub apply_local : Text → Option Text → Control O → Control O
  apply_local key track c = record c { applied = (key, track) ∷ c.applied }

  -- What the body captures: `priorTrack`, `mutationScope`, `isCatchUp` and the parameters
  abbrev pub write_of : Text → Text → TrackParams → Control O → Write
  write_of target key params c = record {
    key = key;
    target = target;
    prior_track = prior_of c.active_target key;
    scope = c.mutation_scope;
    is_catch_up = is_catch_up c.source_surface;
    params = params;
  }

  -- `submitProjectTrackChange` up to its `await`, from the submit event on
  unfoldable pub start_write : Text → Text → Control O → Control O
  start_write target key c =
      let params =
        build_project_track_action_analytics_params c.source_surface (some target) none in
      let submitted = track_action (text "project_track_change_submit") params (record c {
        error = [];
        error_code = [];
        writes = c.writes ++ write_of target key params c ∷ [];
      }) in
      if is_catch_up c.source_surface
      then apply_local key (some target)
          (record submitted { pending_keys = set_add key submitted.pending_keys })
      else record submitted { submitting = true }

  unfoldable pub submit_change : Option Text → Option Text → Control O → Control O
  submit_change target_track epic_key c =
      let target = trimmed target_track in
      let key = trimmed epic_key in
      if not (non_empty target) || not (non_empty key)
      then c
      else if is_catch_up c.source_surface && includes key c.pending_keys
      then c
      else start_write target key c

  -- Whether the write's scope is the one on the screen, and its issue the open one.
  abbrev pub is_same_scope : Write → Control O → Bool
  is_same_scope w c = text_beq c.mutation_scope w.scope

  abbrev pub is_shown : Write → Control O → Bool
  is_shown w c = not w.is_catch_up || text_beq (active_key c.active_target) w.key

  -- `finally`
  unfoldable pub end_write : Write → List Write → Control O → Control O
  end_write w others c =
      if w.is_catch_up
      then (if is_same_scope w c
          then record c { pending_keys = set_delete w.key c.pending_keys; writes = others }
          else record c { writes = others })
      else record c { submitting = false; writes = others }

  -- A write that resolves: it reports its result, and the server's track is applied.
  unfoldable pub write_resolved : Write → List Write → WriteResponse → Control O → Control O
  write_resolved w others response c =
      let reported =
        (if (not w.is_catch_up || is_same_scope w c) && is_shown w c
          then record c { result = some (or_text (or_empty response.result) (text "success")) }
          else c) in
      let logged =
        track_action (text "project_track_change_result")
          (record w.params { result = some (text "success") }) reported in
      end_write w others
        (if is_same_scope w c then apply_local w.key (canonical_track response) logged else logged)

  -- A write that fails: the optimistic track is taken back.
  unfoldable pub write_failed : Write → List Write → NetworkError → Control O → Control O
  write_failed w others e c =
      let rolled_back =
        (if w.is_catch_up && is_same_scope w c
          then apply_local w.key (some w.prior_track) (recover e c)
          else recover e c) in
      let shown =
        (if (not w.is_catch_up || is_same_scope w c) && is_shown w c
          then record rolled_back {
            error = or_text (or_empty e.message) (text "Failed to change Project Track.");
            error_code = or_empty e.code;
          }
          else rolled_back) in
      end_write w others (
        track_action (text "project_track_change_result")
          (record w.params { result = some (text "failure") }) shown)

  -- What can happen to the control.
  pub data Step : Control O → Control O → Type ℓ where
    scope_changed :
        (surface : Surface) (scope : Text) (c : Control O) → Step c (change_scope surface scope c)
    closed : (c : Control O) → Step c (close_control c)
    opened :
        (epic_key current_track : Option Text) (c : Control O)
        → Step c (open_control epic_key current_track c)
    submitted :
        (target_track epic_key : Option Text) (c : Control O)
        → Step c (submit_change target_track epic_key c)
    options_arrived :
        (before after : List OptionFetch) (f : OptionFetch) (payload : O) (c : Control O)
        → c.fetches ≡ before ++ f ∷ after
        → Step c (fetch_resolved f (before ++ after) payload c)
    options_failed :
        (before after : List OptionFetch) (f : OptionFetch) (e : NetworkError) (c : Control O)
        → c.fetches ≡ before ++ f ∷ after
        → Step c (fetch_failed f (before ++ after) e c)
    write_succeeded :
        (before after : List Write) (w : Write) (response : WriteResponse) (c : Control O)
        → c.writes ≡ before ++ w ∷ after
        → Step c (write_resolved w (before ++ after) response c)
    write_broke :
        (before after : List Write) (w : Write) (e : NetworkError) (c : Control O)
        → c.writes ≡ before ++ w ∷ after
        → Step c (write_failed w (before ++ after) e c)

  pub data Reach (surface : Surface) (scope : Text) : Control O → Type ℓ where
    start : Reach surface scope (create_control surface scope)
    later : {c c' : Control O} → Reach surface scope c → Step c c' → Reach surface scope c'
