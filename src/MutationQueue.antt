-- ===== src/MutationQueue.antt =====
-- frontend/src/eng/engIssueMutationQueue.js: the bounded queue of Jira writes.
-- The closure's variables are the first four fields of `Queue`. A launched promise chain is a
-- job of `running` until it settles; `accepted` and `started` are the histories of `pending.push`
-- and of the launches. A runner, with its `resolve` and `reject`, is a value of the type `R`.
mod Take
mod Drain
pub mod Invariant
pub mod Safety
pub mod Progress
mod Tests
use jira_execution_planner.Base.{
  ℕ, zero, suc, ◌+◌, ◌-◌, ◌≡◌, not, Option, none, some, List, [], ◌∷◌, ◌++◌, ltb, nat_beq, ◌==◌,
  if◌then◌else◌,
}
use jira_execution_planner.Base.Lists.{length, filter, includes}
use jira_execution_planner.Base.Text.{Text, text_beq, text_equality, upper_key}

pub record Job {ℓ} (R : Type ℓ) : Type ℓ where
  pub issue_key : Text
  pub run : R

pub record Queue {ℓ} (R : Type ℓ) : Type ℓ where
  pub concurrency : ℕ
  pub pending : List (Job R)
  pub active_keys : List Text
  pub active_count : ℕ
  pub running : List (Job R)
  pub accepted : List (Job R)
  pub started : List (Job R)

pub data EnqueueError : Type 0 where
  missing_key_or_runner : EnqueueError

pub data Result {ℓ} (A : Type ℓ) : Type ℓ where
  ok : A → Result A
  err : EnqueueError → Result A

abbrev pub eng_issue_mutation_concurrency : ℕ
eng_issue_mutation_concurrency = 4

-- `Math.max(1, Math.floor(Number(maxConcurrency) || 1))` of a natural number
unfoldable pub clamp_concurrency : ℕ → ℕ
clamp_concurrency n = let m = (if nat_beq n 0 then 1 else n) in if ltb m 1 then 1 else m

-- `set.add` and `set.delete`
unfoldable pub set_add : Text → List Text → List Text
set_add k s = if includes k s then s else s ++ k ∷ []

unfoldable pub set_delete : Text → List Text → List Text
set_delete k s = filter (λ j. not (text_beq j k)) s

module _ {ℓ} {R : Type ℓ} where
  unfoldable pub create : ℕ → Queue R
  unfolding clamp_concurrency
  create max_concurrency = record {
    concurrency = clamp_concurrency max_concurrency;
    pending = [];
    active_keys = [];
    active_count = 0;
    running = [];
    accepted = [];
    started = [];
  }

  -- `pending.findIndex(job => !activeKeys.has(job.issueKey))` and `pending.splice(index, 1)`
  pub take_startable : List Text → List (Job R) → Option (Job R × List (Job R))
  take_startable active [] = none
  take_startable active (job ∷ rest) =
      let later = take_startable active rest in
      if includes job.issue_key active
      then elim later [ none ↦ none | some (found, left) ↦ some (found, job ∷ left) ]
      else some (job, rest)

  -- The test of the loop and the search for a job: `none` at either exit.
  pub next_job : Queue R → Option (Job R × List (Job R))
  next_job q =
      if ltb q.active_count q.concurrency then take_startable q.active_keys q.pending else none

  pub launch : Job R → List (Job R) → Queue R → Queue R
  launch job rest q = record q {
    pending = rest;
    active_count = q.active_count + 1;
    active_keys = set_add job.issue_key q.active_keys;
    running = q.running ++ job ∷ [];
    started = q.started ++ job ∷ [];
  }

  pub drain_loop : ℕ → Queue R → Queue R
  drain_loop zero q = q
  drain_loop (suc fuel) q = elim (next_job q) [
    | none ↦ q
    | some (job, rest) ↦ drain_loop fuel (launch job rest q)
  ]

  -- Each round takes a job from `pending`, so this fuel suffices.
  pub drain : Queue R → Queue R
  drain q = drain_loop (suc (length q.pending)) q

  -- `pending.push`, in the promise's executor
  pub push : Job R → Queue R → Queue R
  push job q = record q { pending = q.pending ++ job ∷ []; accepted = q.accepted ++ job ∷ [] }

  -- A missing runner, and a key that is blank, are refused.
  pub enqueue : Option Text → Option R → Queue R → Result (Queue R)
  unfolding push
  enqueue issue_key none q = err missing_key_or_runner
  enqueue issue_key (some run) q =
      let key = upper_key issue_key in
      if key == []
      then err missing_key_or_runner
      else ok (drain (push (record { issue_key = key; run = run }) q))

  -- `finally` of a chain, before its `drain()`
  pub retire : Text → List (Job R) → Queue R → Queue R
  retire key still_running q = record q {
    active_count = q.active_count - 1;
    active_keys = set_delete key q.active_keys;
    running = still_running;
  }

  pub settle : Text → List (Job R) → Queue R → Queue R
  unfolding retire
  settle key still_running q = drain (retire key still_running q)

  -- What can happen: a call of `enqueue` that is accepted, or a chain that settles. Which chain
  -- settles next, and whether it resolves or rejects, is up to the network.
  pub data Step : Queue R → Queue R → Type ℓ where
    enqueued :
        (key : Option Text) (run : Option R) (q : Queue R) {q' : Queue R}
        → enqueue key run q ≡ ok q'
        → Step q q'
    settled :
        (before after : List (Job R)) (job : Job R) (q : Queue R)
        → q.running ≡ before ++ job ∷ after
        → Step q (settle job.issue_key (before ++ after) q)

  pub data Reach (n : ℕ) : Queue R → Type ℓ where
    start : Reach n (create n)
    later : {q q' : Queue R} → Reach n q → Step q q' → Reach n q'
