-- ===== src/MutationQueue/Drain.antt =====
-- The loop of `drain`: an induction rule, and the state in which it stops.
use jira_execution_planner.Base.{
  ℕ, zero, suc, ◌≤◌, ◌<◌, Option, none, some, List, arith, ltb, Bool-cases, inl, inr,
}
use jira_execution_planner.Base.Lists.{length, All}
use jira_execution_planner.MutationQueue.{
  Job, Queue, take_startable, next_job, launch, drain_loop, drain,
}
use jira_execution_planner.MutationQueue.Take.{Found, Busy, TakeSpec, take_startable_lem}

module _ {ℓ} {R : Type ℓ} where
  -- No job can be launched: the bound is reached, or each pending key is active.
  pub data IsSaturated (q : Queue R) : Type ℓ where
    full : q.concurrency ≤ q.active_count → IsSaturated q
    blocked : All (λ j. Busy q.active_keys j) q.pending → IsSaturated q

  abbrev pub NextSpec : Queue R → Option (Job R × List (Job R)) → Type ℓ
  NextSpec q none = IsSaturated q
  NextSpec q (some (job, rest)) =
      (q.active_count < q.concurrency) × Found q.active_keys q.pending job rest

  from_take :
      (q : Queue R) (o : Option (Job R × List (Job R)))
      → q.active_count < q.concurrency
      → TakeSpec q.active_keys q.pending o
      → NextSpec q o
  from_take q none room h = blocked h
  from_take q (some (job, rest)) room h = (room, h)

  next_job_lem : (q : Queue R) → NextSpec q (next_job q)
  unfolding next_job
  next_job_lem q = elim (Bool-cases (ltb q.active_count q.concurrency)) [
    | inl room ↦ rw room (
        from_take q (take_startable q.active_keys q.pending) (ground arith)
          (take_startable_lem q.active_keys q.pending))
    | inr no_room ↦ rw no_room (full (ground arith))
  ]

  -- What every launch keeps, `drain` keeps.
  pub drain_loop_ind {κ} :
      (P : Queue R → Type κ)
      → ((q : Queue R) (job : Job R) (rest : List (Job R))
          → q.active_count < q.concurrency
          → Found q.active_keys q.pending job rest
          → P q
          → P (launch job rest q))
      → (fuel : ℕ) (q : Queue R) → P q
      → P (drain_loop fuel q)
  unfolding drain_loop
  drain_loop_ind P keep zero q p = p
  drain_loop_ind P keep (suc fuel) q p =
      go (λ job rest. drain_loop_ind P keep fuel (launch job rest q)) (next_job q) (next_job_lem q)
    where
      go :
          ((job : Job R) (rest : List (Job R))
            → P (launch job rest q)
            → P (drain_loop fuel (launch job rest q)))
          → (o : Option (Job R × List (Job R))) → NextSpec q o
          → P (elim o [ none ↦ q | some (job, rest) ↦ drain_loop fuel (launch job rest q) ])
      go ih none s = p
      go ih (some (job, rest)) s = ih job rest (keep q job rest s.0 s.1 p)

  -- With more fuel than pending jobs the loop ends by one of its own exits.
  pub drain_loop-IsSaturated :
      (fuel : ℕ) (q : Queue R) → length q.pending < fuel → IsSaturated (drain_loop fuel q)
  unfolding drain_loop launch
  drain_loop-IsSaturated zero q h = absurd (omega arith)
  drain_loop-IsSaturated (suc fuel) q h =
      go (λ job rest. drain_loop-IsSaturated fuel (launch job rest q)) (next_job q) (next_job_lem q)
    where
      go :
          ((job : Job R) (rest : List (Job R))
            → length rest < fuel
            → IsSaturated (drain_loop fuel (launch job rest q)))
          → (o : Option (Job R × List (Job R))) → NextSpec q o
          → IsSaturated
              (elim o [ none ↦ q | some (job, rest) ↦ drain_loop fuel (launch job rest q) ])
      go ih none s = s
      go ih (some (job, rest)) s = ih job rest (omega (arith, s.1.shorter))

  pub drain-IsSaturated : (q : Queue R) → IsSaturated (drain q)
  unfolding drain
  drain-IsSaturated q = drain_loop-IsSaturated (suc (length q.pending)) q (omega arith)
