-- ===== src/ProjectTrack/Writes.antt =====
-- Answers to fetches, and writes from their start to their end, keep the invariant.
use jira_execution_planner.Base.{
  ◌≡◌, refl, ap, subst, true, false, ◌&&◌, ◌||◌, not, Option, none, some, List, [], ◌∷◌, ◌++◌,
  arith, if_cases, Bool-cases, inl, inr,
}
use jira_execution_planner.Base.Lists.{
  any, All, includes, any-middle, any-append, All-middle, All-append, All-map, non_empty,
}
use jira_execution_planner.Base.Text.{Text, text_beq, text_beq_iff, text_equality, trimmed}
use jira_execution_planner.MutationQueue.{set_add, set_delete}
use jira_execution_planner.ProjectTrack.{
  is_catch_up, TrackParams, build_project_track_action_analytics_params,
}
use jira_execution_planner.ProjectTrack.Control.{
  TrackTarget, OptionFetch, Write, Control, NetworkError, WriteResponse, is_token, track_action,
  fetch_resolved, recover, fetch_failed, apply_local, write_of, start_write, submit_change,
  is_same_scope, is_shown, end_write, write_resolved, write_failed,
}
use jira_execution_planner.ProjectTrack.Invariant.{
  IsOwn, IsOpen, IsCurrent, is_write_here, Holds, IsValid, end_fetch-IsValid, drop_fetch-IsValid,
}

IsOwn-arrived {ℓ} :
    {O : Type ℓ} (target : Option TrackTarget) (key : Text) (payload : O)
    → IsOpen target key
    → IsOwn target (some (record { for_key = key; payload = payload }))
IsOwn-arrived none key payload h = tt
IsOwn-arrived (some t) key payload h = h

-- The keys that still wait when the write of one key has ended.
waiting-without :
    (scope key : Text) (before after : List Write) (w : Write) (pending : List Text)
    → All (λ k. any (is_write_here scope k) (before ++ w ∷ after) ≡ true) pending
    → (text_beq w.key key ≡ true)
    → All (λ k. any (is_write_here scope k) (before ++ after) ≡ true) (set_delete key pending)
unfolding set_delete
waiting-without scope key before after w [] h e = tt
waiting-without scope key before after w (k ∷ pending) h e =
    elim (Bool-cases (not (text_beq k key))) [
      | inl other ↦ rw other (
        ground (
          arith,
          h.0,
          other,
          any-middle (is_write_here scope k) before after w,
          text_beq_iff w.key key,
          text_beq_iff w.key k,
          text_beq_iff k key,
        ),
        waiting-without scope key before after w pending h.1 e,
      )
      | inr same ↦ rw same (waiting-without scope key before after w pending h.1 e)
    ]

-- A write of another scope, or of the planning view, is not waited for.
waiting_each :
    (scope : Text) (before after : List Write) (w : Write) (pending : List Text)
    → (w.is_catch_up && text_beq scope w.scope) ≡ false
    → All (λ k. any (is_write_here scope k) (before ++ w ∷ after) ≡ true) pending
    → All (λ k. any (is_write_here scope k) (before ++ after) ≡ true) pending
waiting_each scope before after w pending away h =
    All-map (λ k e. ground (arith, away, e, any-middle (is_write_here scope k) before after w))
      pending h

waiting-more :
    (scope : Text) (writes : List Write) (w : Write) (pending : List Text)
    → All (λ k. any (is_write_here scope k) writes ≡ true) pending
    → All (λ k. any (is_write_here scope k) (writes ++ w ∷ []) ≡ true) pending
waiting-more scope writes w pending h =
    All-map (λ k e. ground (arith, e, any-append (is_write_here scope k) writes (w ∷ []))) pending h

module _ {ℓ} {O : Type ℓ} where
  pub fetch_resolved-IsValid :
      (before after : List OptionFetch) (f : OptionFetch) (payload : O) (c : Control O)
      → c.fetches ≡ before ++ f ∷ after
      → IsValid c
      → IsValid (fetch_resolved f (before ++ after) payload c)
  unfolding fetch_resolved
  fetch_resolved-IsValid before after f payload c e v =
      if_cases IsValid (is_token c.request_token f.token)
        (λ now.
          end_fetch-IsValid before after f c.writes
            (record c { options = some (record { for_key = f.key; payload = payload }) })
            (record {
              fetches_valid = record {
                own = IsOwn-arrived c.active_target f.key payload (
                    (All-middle _ before after f (
                        subst (All (IsCurrent c.active_target c.request_token c.next_token)) e
                          v.fetches_valid.current)).0.1
                      now);
                loads = v.fetches_valid.loads;
                current = v.fetches_valid.current;
                fetching = v.fetches_valid.fetching;
              };
              writes_valid = v.writes_valid;
              fetches_are = e;
              writes_are = refl;
            }))
        (λ old. drop_fetch-IsValid before after f c e old v)

  -- `recover` changes nothing that the invariant reads.
  recover-Holds :
      (fetches : List OptionFetch) (writes : List Write) (e : NetworkError) (c : Control O)
      → Holds fetches writes c
      → Holds fetches writes (recover e c)
  unfolding recover
  recover-Holds fetches writes e c v =
      if_cases (Holds fetches writes) e.needs_login
        (λ _. record {
          fetches_valid = v.fetches_valid;
          writes_valid = v.writes_valid;
          fetches_are = v.fetches_are;
          writes_are = v.writes_are;
        })
        (λ _. v)

  -- Nor do an error, a result, an applied track or a tracked action.
  Holds-shown :
      (fetches : List OptionFetch) (writes : List Write) (c : Control O) (error error_code : Text)
      (result : Option Text) (applied : List (Text × Option Text))
      (tracked : List (Text × TrackParams))
      → Holds fetches writes c
      → Holds fetches writes (record c {
        error = error;
        error_code = error_code;
        result = result;
        applied = applied;
        tracked = tracked;
      })
  Holds-shown fetches writes c error error_code result applied tracked v = record {
    fetches_valid = v.fetches_valid;
    writes_valid = v.writes_valid;
    fetches_are = v.fetches_are;
    writes_are = v.writes_are;
  }

  pub fetch_failed-IsValid :
      (before after : List OptionFetch) (f : OptionFetch) (e : NetworkError) (c : Control O)
      → c.fetches ≡ before ++ f ∷ after
      → IsValid c
      → IsValid (fetch_failed f (before ++ after) e c)
  unfolding fetch_failed
  fetch_failed-IsValid before after f e c h v =
      if_cases IsValid (is_token c.request_token f.token)
        (λ now.
          let r = recover e c in
          let held = recover-Holds (before ++ f ∷ after) c.writes e c (record {
            fetches_valid = v.fetches_valid;
            writes_valid = v.writes_valid;
            fetches_are = h;
            writes_are = refl;
          }) in
          end_fetch-IsValid before after f c.writes _
            (Holds-shown _ _ r _ _ r.result r.applied r.tracked held))
        (λ old. drop_fetch-IsValid before after f c h old v)

  -- A new write, for which the key given waits, or the planning view.
  start_write-IsValid :
      (target key : Text) (c : Control O) → IsValid c → IsValid (start_write target key c)
  unfolding start_write track_action apply_local set_add
  start_write-IsValid target key c v =
      let params =
        build_project_track_action_analytics_params c.source_surface (some target) none in
      let w = write_of target key params c in
      let more = waiting-more c.mutation_scope c.writes w c.pending_keys v.writes_valid.writing in
      let P : List Text → Type 0 =
        All (λ k. any (is_write_here c.mutation_scope k) (c.writes ++ w ∷ []) ≡ true) in
      if_cases IsValid (is_catch_up c.source_surface)
        (λ cu. record {
          fetches_valid = v.fetches_valid;
          writes_valid = record {
            writing =
                if_cases P (includes key c.pending_keys) (λ _. more)
                  (λ _. All-append _ c.pending_keys (key ∷ []) more (
                    ground (
                      arith,
                      cu,
                      any-append (is_write_here c.mutation_scope key) c.writes (w ∷ []),
                      text_beq_iff c.mutation_scope c.mutation_scope,
                      text_beq_iff key key,
                    ),
                    tt,
                  ));
            saving = λ h. ground (
              arith,
              v.writes_valid.saving h,
              any-append (λ x. not x.is_catch_up) c.writes (w ∷ []),
            );
          };
          fetches_are = refl;
          writes_are = refl;
        })
        (λ pl. record {
          fetches_valid = v.fetches_valid;
          writes_valid = record {
            writing = more;
            saving = λ h. ground (arith, pl, any-append (λ x. not x.is_catch_up) c.writes (w ∷ []));
          };
          fetches_are = refl;
          writes_are = refl;
        })

  pub submit_change-IsValid :
      (target_track epic_key : Option Text) (c : Control O)
      → IsValid c
      → IsValid (submit_change target_track epic_key c)
  unfolding submit_change
  submit_change-IsValid target_track epic_key c v =
      if_cases IsValid
        (not (non_empty (trimmed target_track)) || not (non_empty (trimmed epic_key))) (λ _. v)
        (λ _.
          if_cases IsValid
            (is_catch_up c.source_surface && includes (trimmed epic_key) c.pending_keys) (λ _. v)
            (λ _. start_write-IsValid (trimmed target_track) (trimmed epic_key) c v))

  end_write-IsValid :
      (before after : List Write) (w : Write) (fetches : List OptionFetch) (c : Control O)
      → Holds fetches (before ++ w ∷ after) c
      → IsValid (end_write w (before ++ after) c)
  unfolding end_write
  end_write-IsValid before after w fetches c v =
      let waits =
        subst (λ l. All (λ k. any (is_write_here c.mutation_scope k) l ≡ true) c.pending_keys)
          v.writes_are v.writes_valid.writing in
      let saves : w.is_catch_up ≡ true
          → c.submitting ≡ true
          → any (λ x. not x.is_catch_up) (before ++ after) ≡ true =
        λ cu h. ground (
          arith,
          cu,
          v.writes_valid.saving h,
          ap (any (λ x. not x.is_catch_up)) v.writes_are,
          any-middle (λ x. not x.is_catch_up) before after w,
        ) in
      if_cases IsValid w.is_catch_up
        (λ cu.
          if_cases IsValid (is_same_scope w c)
            (λ here. record {
              fetches_valid = v.fetches_valid;
              writes_valid = record {
                writing =
                    waiting-without c.mutation_scope w.key before after w c.pending_keys waits
                      (ground (arith, text_beq_iff w.key w.key));
                saving = saves cu;
              };
              fetches_are = refl;
              writes_are = refl;
            })
            (λ away. record {
              fetches_valid = v.fetches_valid;
              writes_valid = record {
                writing =
                    waiting_each c.mutation_scope before after w c.pending_keys
                      (ground (arith, away)) waits;
                saving = saves cu;
              };
              fetches_are = refl;
              writes_are = refl;
            }))
        (λ pl. record {
          fetches_valid = v.fetches_valid;
          writes_valid = record {
            writing =
                waiting_each c.mutation_scope before after w c.pending_keys (ground (arith, pl))
                  waits;
            saving = λ h. cc;
          };
          fetches_are = refl;
          writes_are = refl;
        })

  pub write_resolved-IsValid :
      (before after : List Write) (w : Write) (response : WriteResponse) (c : Control O)
      → c.writes ≡ before ++ w ∷ after
      → IsValid c
      → IsValid (write_resolved w (before ++ after) response c)
  unfolding write_resolved track_action apply_local
  write_resolved-IsValid before after w response c e v =
      let H : Control O → Type 0 = Holds c.fetches (before ++ w ∷ after) in
      let held : H c = record {
        fetches_valid = v.fetches_valid;
        writes_valid = v.writes_valid;
        fetches_are = refl;
        writes_are = e;
      } in
      let reported =
        if_cases H ((not w.is_catch_up || is_same_scope w c) && is_shown w c)
          (λ _. Holds-shown _ _ c c.error c.error_code _ c.applied c.tracked held) (λ _. held) in
      let logged = Holds-shown _ _ _ _ _ _ _ _ reported in
      end_write-IsValid before after w c.fetches _
        (if_cases H (is_same_scope w c) (λ _. Holds-shown _ _ _ _ _ _ _ _ logged) (λ _. logged))

  pub write_failed-IsValid :
      (before after : List Write) (w : Write) (e : NetworkError) (c : Control O)
      → c.writes ≡ before ++ w ∷ after
      → IsValid c
      → IsValid (write_failed w (before ++ after) e c)
  unfolding write_failed track_action apply_local
  write_failed-IsValid before after w e c h v =
      let H : Control O → Type 0 = Holds c.fetches (before ++ w ∷ after) in
      let recovered : H (recover e c) = recover-Holds _ _ e c (record {
        fetches_valid = v.fetches_valid;
        writes_valid = v.writes_valid;
        fetches_are = refl;
        writes_are = h;
      }) in
      let rolled_back =
        if_cases H (w.is_catch_up && is_same_scope w c)
          (λ _. Holds-shown _ _ (recover e c) _ _ _ _ _ recovered) (λ _. recovered) in
      let shown =
        if_cases H ((not w.is_catch_up || is_same_scope w c) && is_shown w c)
          (λ _. Holds-shown _ _ _ _ _ _ _ _ rolled_back) (λ _. rolled_back) in
      end_write-IsValid before after w c.fetches _ (Holds-shown _ _ _ _ _ _ _ _ shown)
