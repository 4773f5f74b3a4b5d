-- ===== src/MutationQueue/Take.antt =====
-- What `take_startable` finds.
use jira_execution_planner.Base.{
  suc, ◌≡◌, refl, true, false, Option, none, some, List, [], ◌∷◌, arith, Bool-cases, inl, inr,
}
use jira_execution_planner.Base.Lists.{length, filter, includes, All}
use jira_execution_planner.Base.Text.{Text, text_beq, text_beq_iff, text_equality}
use jira_execution_planner.MutationQueue.{Job, take_startable}

module _ {ℓ} {R : Type ℓ} where
  abbrev pub of_key : Text → List (Job R) → List (Job R)
  of_key k jobs = filter (λ j. text_beq j.issue_key k) jobs

  pub record Busy (active : List Text) (job : Job R) : Type ℓ where
    pub busy : includes job.issue_key active ≡ true

  -- The job found has a free key, and it is the oldest of its key; the rest keeps its order.
  pub record Found (active : List Text) (jobs : List (Job R)) (job : Job R) (rest : List (Job R))
      : Type ℓ where
    pub free : includes job.issue_key active ≡ false
    pub shorter : length jobs ≡ suc (length rest)
    pub order : (k : Text) → of_key k jobs ≡ of_key k (job ∷ rest)

  Found-cons :
      (active : List Text) (x : Job R) (jobs : List (Job R)) (job : Job R) (rest : List (Job R))
      → includes x.issue_key active ≡ true
      → Found active jobs job rest
      → Found active (x ∷ jobs) job (x ∷ rest)
  Found-cons active x jobs job rest busy f = record {
    free = f.free;
    shorter = ground (arith, f.shorter);
    order = λ k.
        ground (arith, f.order k, f.free, text_beq_iff x.issue_key k, text_beq_iff job.issue_key k);
  }

  -- Nothing is found only when every pending key is active.
  abbrev pub TakeSpec : List Text → List (Job R) → Option (Job R × List (Job R)) → Type ℓ
  TakeSpec active jobs none = All (λ j. Busy active j) jobs
  TakeSpec active jobs (some (job, rest)) = Found active jobs job rest

  take_past :
      (active : List Text) (x : Job R) (jobs : List (Job R)) (o : Option (Job R × List (Job R)))
      → includes x.issue_key active ≡ true
      → TakeSpec active jobs o
      → TakeSpec active
          (x ∷ jobs)
          (elim o [ none ↦ none | some (found, left) ↦ some (found, x ∷ left) ])
  take_past active x jobs none busy h = (record { busy = busy }, h)
  take_past active x jobs (some (job, rest)) busy h = Found-cons active x jobs job rest busy h

  pub take_startable_lem :
      (active : List Text) (jobs : List (Job R)) → TakeSpec active jobs (take_startable active jobs)
  unfolding take_startable
  take_startable_lem active [] = tt
  take_startable_lem active (x ∷ jobs) = elim (Bool-cases (includes x.issue_key active)) [
    | inl busy ↦
        rw busy (
          take_past active x jobs (take_startable active jobs) busy
            (take_startable_lem active jobs))
    | inr free ↦ rw free (record { free = free; shorter = refl; order = λ k. refl })
  ]
