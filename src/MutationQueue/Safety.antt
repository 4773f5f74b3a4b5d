-- ===== src/MutationQueue/Safety.antt =====
-- What holds of the queue's writes in every reachable state.
use jira_execution_planner.Base.{
  ℕ, suc, ◌≤◌, ◌≡◌, refl, sym, ap, ◌∙◌, subst, ◌↔◌, ◌⊎◌, inl, inr, Option, none, some, List, [],
  ◌∷◌, ◌++◌, arith,
}
use jira_execution_planner.Base.Lists.{length, Distinct}
use jira_execution_planner.Base.Text.{Text, text_equality, text_beq_iff, upper_key}
use jira_execution_planner.MutationQueue.{
  Job, Queue, launch, drain, push, retire, settle, enqueue, Step, enqueued, settled, Reach, start,
  later, create, clamp_concurrency, err, missing_key_or_runner,
}
use jira_execution_planner.MutationQueue.Take.{of_key}
use jira_execution_planner.MutationQueue.Drain.{drain_loop_ind}
use jira_execution_planner.MutationQueue.Invariant.{Reach-IsValid, enqueue-eq-ok, keys}

module _ {ℓ} {R : Type ℓ} where
  drain-concurrency : (q : Queue R) → (drain q).concurrency ≡ q.concurrency
  unfolding drain launch
  drain-concurrency q =
      drain_loop_ind (λ p. p.concurrency ≡ q.concurrency) (λ p job rest room f e. e)
        (suc (length q.pending)) q refl

  Step-concurrency : {q q' : Queue R} → Step q q' → q'.concurrency ≡ q.concurrency
  unfolding settle push retire
  Step-concurrency (enqueued key run q h) =
      let (r, _, _, e) = enqueue-eq-ok key run q h in
      ap (λ p. p.concurrency) e
      ∙ drain-concurrency (push (record { issue_key = upper_key key; run = r }) q)
  Step-concurrency (settled before after job q e) =
      drain-concurrency (retire job.issue_key (before ++ after) q)

  Reach-concurrency : {n : ℕ} {q : Queue R} → Reach n q → q.concurrency ≡ clamp_concurrency n
  unfolding create
  Reach-concurrency start = refl
  Reach-concurrency (later r s) = Step-concurrency s ∙ Reach-concurrency r

  -- `length` of the keys of jobs is that of the jobs.
  length-keys : (jobs : List (Job R)) → length (keys jobs) ≡ length jobs
  length-keys [] = refl
  length-keys (j ∷ jobs) = ap suc (length-keys jobs)

  -- At most `clamp_concurrency n` writes run at once, and no two of them are for one issue.
  pub Reach-exclusive :
      {n : ℕ} {q : Queue R}
      → Reach n q
      → (length q.running ≤ clamp_concurrency n) × Distinct (keys q.running)
  Reach-exclusive {q = q} r =
      let v = Reach-IsValid r in
      (
        omega (
          arith,
          v.bounded,
          v.counted,
          ap length v.tracked,
          length-keys q.running,
          Reach-concurrency r,
        ),
        subst Distinct (sym v.tracked) v.distinct,
      )

  -- For each issue, the writes started are a prefix of the writes accepted, in the same order,
  -- and the rest of them is pending: none is lost, repeated or overtaken.
  pub Reach-fifo :
      {n : ℕ} {q : Queue R}
      → Reach n q
      → (k : Text) → of_key k q.accepted ≡ of_key k q.started ++ of_key k q.pending
  Reach-fifo r k = (Reach-IsValid r).fifo k

  -- A call is refused exactly when there is no runner or the key is blank.
  pub enqueue-eq-err_iff :
      (key : Option Text) (run : Option R) (q : Queue R)
      → (enqueue key run q ≡ err missing_key_or_runner) ↔ ((run ≡ none) ⊎ (upper_key key ≡ []))
  unfolding enqueue
  enqueue-eq-err_iff key none q = (λ _. inl refl, λ _. refl)
  enqueue-eq-err_iff key (some r) q = (
    λ h. inr (ground (arith, text_beq_iff (upper_key key) [])),
    λ h. ground (arith, text_beq_iff (upper_key key) []),
  )
