-- ===== src/MutationQueue/Progress.antt =====
-- Nothing waits without a reason, and every accepted write is started in the end.
use jira_execution_planner.Base.{
  ℕ, suc, ◌+◌, ◌<◌, ◌≡◌, ◌⊎◌, inl, inr, refl, sym, ap, ◌∙◌, subst, List, [], ◌∷◌, ◌++◌, append-nil,
  arith, true, true≢false,
}
use jira_execution_planner.Base.Lists.{length, includes, All, length-append}
use jira_execution_planner.Base.Text.{Text, text_equality}
use jira_execution_planner.MutationQueue.{
  Job, Queue, launch, drain, retire, settle, Step, enqueued, settled, Reach, start, later, create,
}
use jira_execution_planner.MutationQueue.Take.{of_key, Busy}
use jira_execution_planner.MutationQueue.Drain.{
  IsSaturated, full, blocked, drain_loop_ind, drain-IsSaturated,
}
use jira_execution_planner.MutationQueue.Invariant.{IsValid, Reach-IsValid, enqueue-eq-ok, keys}

module _ {ℓ} {R : Type ℓ} where
  Step-IsSaturated : {q q' : Queue R} → Step q q' → IsSaturated q'
  unfolding settle
  Step-IsSaturated (enqueued key run q h) =
      let (_, _, _, e) = enqueue-eq-ok key run q h in
      subst IsSaturated (sym e) (drain-IsSaturated _)
  Step-IsSaturated (settled before after job q e) =
      drain-IsSaturated (retire job.issue_key (before ++ after) q)

  -- In every reachable state no pending job could be launched: all slots are taken, or each
  -- pending job waits for a running write to its own issue.
  pub Reach-IsSaturated : {n : ℕ} {q : Queue R} → Reach n q → IsSaturated q
  unfolding create
  Reach-IsSaturated start = blocked tt
  Reach-IsSaturated (later r s) = Step-IsSaturated s

  -- The jobs that have not settled.
  pub open_jobs : Queue R → ℕ
  open_jobs q = length q.pending + length q.running

  drain-open_jobs : (q : Queue R) → open_jobs (drain q) ≡ open_jobs q
  unfolding drain open_jobs launch
  drain-open_jobs q =
      drain_loop_ind (λ p. open_jobs p ≡ open_jobs q)
        (λ p job rest room f e. omega (arith, f.shorter, e, length-append {ℓ} p.running (job ∷ [])))
        (suc (length q.pending)) q refl

  -- Each settlement closes one job.
  pub open_jobs-settle :
      (before after : List (Job R)) (job : Job R) (q : Queue R)
      → q.running ≡ before ++ job ∷ after
      → open_jobs (settle job.issue_key (before ++ after) q) + 1 ≡ open_jobs q
  unfolding settle retire open_jobs
  open_jobs-settle before after job q e = omega (
    arith,
    drain-open_jobs (retire job.issue_key (before ++ after) q),
    ap length e,
    length-append {ℓ} before (job ∷ after),
    length-append {ℓ} before after,
  )

  idle_count : (q : Queue R) → IsValid q → q.running ≡ [] → q.active_keys ≡ []
  idle_count q v e = sym v.tracked ∙ ap keys e

  blocked_idle :
      (active : List Text) (jobs : List (Job R))
      → active ≡ []
      → All (λ j. Busy active j) jobs
      → jobs ≡ []
  blocked_idle active [] e h = refl
  blocked_idle active (j ∷ jobs) e h =
      absurd (true≢false true refl (sym (subst (λ a. includes j.issue_key a ≡ true) e h.0.busy)))

  -- No deadlock: while a job waits, some write is running.
  pub Reach-idle : {n : ℕ} {q : Queue R} → Reach n q → q.running ≡ [] → q.pending ≡ []
  Reach-idle {q = q} r e = elim (Reach-IsSaturated r) [
    | full h ↦ absurd (
        omega (
          arith,
          (Reach-IsValid r).positive,
          (Reach-IsValid r).counted,
          ap length (idle_count q (Reach-IsValid r) e),
        ))
    | blocked h ↦ blocked_idle q.active_keys q.pending (idle_count q (Reach-IsValid r) e) h
  ]

  -- `m` chains settle, one after another, in some order.
  pub data Settling : ℕ → Queue R → Queue R → Type ℓ where
    none_left : {q : Queue R} → Settling 0 q q
    settles :
        {m : ℕ} {q' : Queue R} (before after : List (Job R)) (job : Job R) (q : Queue R)
        → q.running ≡ before ++ job ∷ after
        → Settling m (settle job.issue_key (before ++ after) q) q'
        → Settling (suc m) q q'

  -- Whatever the order, each settlement closes one job.
  pub Settling-open_jobs :
      {m : ℕ} {q q' : Queue R} → Settling m q q' → open_jobs q' + m ≡ open_jobs q
  Settling-open_jobs none_left = omega arith
  Settling-open_jobs (settles before after job q e s) =
      omega (arith, Settling-open_jobs s, open_jobs-settle before after job q e)

  accepted-settle :
      (key : Text) (jobs : List (Job R)) (q : Queue R) → (settle key jobs q).accepted ≡ q.accepted
  unfolding settle retire drain launch
  accepted-settle key jobs q =
      drain_loop_ind (λ p. p.accepted ≡ q.accepted) (λ p job rest room f e. e)
        (suc (length q.pending)) (retire key jobs q) refl

  -- A state in which every accepted job has been started, in order of acceptance per issue.
  pub record IsFinished (accepted : List (Job R)) (q : Queue R) : Type ℓ where
    pub no_pending : q.pending ≡ []
    pub no_running : q.running ≡ []
    pub all_started : (k : Text) → of_key k q.started ≡ of_key k accepted

  idle-IsFinished : {n : ℕ} {q : Queue R} → Reach n q → q.running ≡ [] → IsFinished q.accepted q
  idle-IsFinished {q = q} r e = record {
    no_pending = Reach-idle r e;
    no_running = e;
    all_started = λ k. sym (
        (Reach-IsValid r).fifo k
        ∙ ap (λ p. of_key k q.started ++ of_key k p) (Reach-idle r e)
        ∙ append-nil (of_key k q.started));
  }

  Settling-Reach :
      {n m : ℕ} {q q' : Queue R}
      → Reach n q
      → Settling m q q'
      → Reach n q' × (q'.accepted ≡ q.accepted)
  Settling-Reach r none_left = (r, refl)
  Settling-Reach r (settles before after job q e s) =
      let (r', a) = Settling-Reach (later r (settled before after job q e)) s in
      (r', a ∙ accepted-settle job.issue_key (before ++ after) q)

  -- Where `m` settlements from `q` have led: to the end, after one for each open job, or to a state
  -- in which some write is running, so that another settlement can follow.
  abbrev pub EndsOrRuns : ℕ → Queue R → Queue R → Type ℓ
  EndsOrRuns m q q' =
      ((m ≡ open_jobs q) × IsFinished q.accepted q') ⊎ ((m < open_jobs q) × (0 < length q'.running))

  ends_or_runs :
      {n m : ℕ} {q q' : Queue R} (running : List (Job R))
      → q'.running ≡ running
      → Reach n q'
      → q'.accepted ≡ q.accepted
      → Settling m q q'
      → EndsOrRuns m q q'
  unfolding open_jobs
  ends_or_runs {q' = q'} [] e r a s =
      let idle = idle-IsFinished r e in
      inl (
        omega (arith, Settling-open_jobs s, ap length e, ap length idle.no_pending),
        subst (λ l. IsFinished l q') a idle,
      )
  ends_or_runs (job ∷ running) e r a s =
      inr (omega (arith, Settling-open_jobs s, ap length e), omega (arith, ap length e))

  -- From every reachable state the running writes settle in any order: after as many settlements
  -- as there are open jobs, and not before, nothing is pending or running and every accepted write
  -- has been started, in order of acceptance per issue; until then some write is running.
  pub Reach-finishes : {n m : ℕ} {q q' : Queue R} → Reach n q → Settling m q q' → EndsOrRuns m q q'
  Reach-finishes {q' = q'} r s =
      let (r', a) = Settling-Reach r s in ends_or_runs q'.running refl r' a s
