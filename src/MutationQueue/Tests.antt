-- ===== src/MutationQueue/Tests.antt =====
-- The queue on small inputs. The runner of a job is a number.
use jira_execution_planner.Base.{ℕ, ◌≤◌, ◌≡◌, refl, some, List, [], ◌∷◌, ◌++◌}
use jira_execution_planner.Base.Lists.{Distinct}
use jira_execution_planner.Base.Text.{
  text, text_equality, text_beq, upper_key, trimmed, trim, upper,
}
use jira_execution_planner.MutationQueue.{
  Job, Queue, create, enqueue, settle, drain, drain_loop, next_job, take_startable, launch, push,
  retire, set_add, set_delete, clamp_concurrency, Reach, start, later, enqueued, ok,
}
use jira_execution_planner.MutationQueue.Take.{of_key}
use jira_execution_planner.MutationQueue.Drain.{IsSaturated}
use jira_execution_planner.MutationQueue.Safety.{Reach-exclusive, Reach-fifo}
use jira_execution_planner.MutationQueue.Progress.{
  Reach-IsSaturated, EndsOrRuns, settles, none_left, Reach-finishes,
}

program : Unit {0}
unfolding create enqueue settle drain drain_loop next_job take_startable launch push retire set_add
    set_delete clamp_concurrency upper_key trimmed trim upper text_beq
program = tt

abbrev job : List ℕ → ℕ → Job ℕ
job k r = record { issue_key = k; run = r }

abbrev a1 : List ℕ
a1 = text "A-1"

abbrev b2 : List ℕ
b2 = text "B-2"

-- One slot, two writes to A-1 and one to B-2.
abbrev first : Queue ℕ
first = record {
  concurrency = 2;
  pending = [];
  active_keys = a1 ∷ [];
  active_count = 1;
  running = job a1 1 ∷ [];
  accepted = job a1 1 ∷ [];
  started = job a1 1 ∷ [];
}

abbrev second : Queue ℕ
second = record first { pending = job a1 2 ∷ []; accepted = job a1 1 ∷ job a1 2 ∷ [] }

abbrev third : Queue ℕ
third = record {
  concurrency = 2;
  pending = job a1 2 ∷ [];
  active_keys = a1 ∷ b2 ∷ [];
  active_count = 2;
  running = job a1 1 ∷ job b2 3 ∷ [];
  accepted = job a1 1 ∷ job a1 2 ∷ job b2 3 ∷ [];
  started = job a1 1 ∷ job b2 3 ∷ [];
}

enqueue-first : enqueue (some (text " a-1 ")) (some 1) (create 2) ≡ ok first
unfolding program
enqueue-first = refl

enqueue-second : enqueue (some a1) (some 2) first ≡ ok second
unfolding program
enqueue-second = refl

enqueue-third : enqueue (some b2) (some 3) second ≡ ok third
unfolding program
enqueue-third = refl

settle-third : (settle a1 (job b2 3 ∷ []) third).running ≡ job b2 3 ∷ job a1 2 ∷ []
unfolding program
settle-third = refl

third-Reach : Reach 2 third
third-Reach =
    later
      (later (later start (enqueued (some (text " a-1 ")) (some 1) (create 2) enqueue-first))
        (enqueued (some a1) (some 2) first enqueue-second))
      (enqueued (some b2) (some 3) second enqueue-third)

Reach-exclusive_example : (2 ≤ clamp_concurrency 2) × Distinct (a1 ∷ b2 ∷ [])
Reach-exclusive_example = Reach-exclusive third-Reach

Reach-fifo_example : of_key a1 third.accepted ≡ of_key a1 third.started ++ of_key a1 third.pending
Reach-fifo_example = Reach-fifo third-Reach a1

Reach-IsSaturated_example : IsSaturated third
Reach-IsSaturated_example = Reach-IsSaturated third-Reach

Reach-finishes_example : EndsOrRuns 1 third (settle b2 (job a1 1 ∷ []) third)
Reach-finishes_example =
    Reach-finishes third-Reach (settles (job a1 1 ∷ []) [] (job b2 3) third refl none_left)
