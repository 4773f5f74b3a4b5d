-- ===== src/MutationQueue/Invariant.antt =====
-- The invariant of the queue, and what it says of writes to one issue and of the bound.
use jira_execution_planner.Base.{
  ℕ, suc, ◌≤◌, ◌<◌, ◌≡◌, ◌≢◌, refl, sym, ap, ◌∙◌, subst, false, not, Option, none, some, List, [],
  ◌∷◌, ◌++◌, map, append_assoc, arith,
}
use jira_execution_planner.Base.Lists.{
  length, includes, Distinct, Distinct-snoc, Distinct-filter, filter-append, length-append,
}
use jira_execution_planner.Base.Text.{Text, text_beq, text_beq_iff, text_equality, upper_key}
use jira_execution_planner.MutationQueue.{
  Job, Queue, launch, drain, push, enqueue, retire, settle, set_add, set_delete, create,
  clamp_concurrency, Step, enqueued, settled, Reach, start, later, ok,
}
use jira_execution_planner.MutationQueue.Take.{of_key, Found}
use jira_execution_planner.MutationQueue.Drain.{drain_loop_ind}

set_delete_absent : (k : Text) (s : List Text) → includes k s ≡ false → set_delete k s ≡ s
unfolding set_delete
set_delete_absent k [] h = refl
set_delete_absent k (x ∷ s) h = ground (arith, set_delete_absent k s)

module _ {ℓ} {R : Type ℓ} where
  abbrev pub keys : List (Job R) → List Text
  keys jobs = map (λ j. j.issue_key) jobs

  pub record IsValid (q : Queue R) : Type ℓ where
    pub positive : 1 ≤ q.concurrency
    pub bounded : q.active_count ≤ q.concurrency
    pub counted : q.active_count ≡ length q.active_keys
    pub tracked : keys q.running ≡ q.active_keys
    pub distinct : Distinct q.active_keys
    pub fifo : (k : Text) → of_key k q.accepted ≡ of_key k q.started ++ of_key k q.pending

  map-snoc :
      (jobs : List (Job R)) (j : Job R) → keys (jobs ++ j ∷ []) ≡ keys jobs ++ j.issue_key ∷ []
  map-snoc [] j = refl
  map-snoc (x ∷ jobs) j = ap (λ l. x.issue_key ∷ l) (map-snoc jobs j)

  launch-IsValid :
      {job : Job R} {rest : List (Job R)} (q : Queue R)
      → q.active_count < q.concurrency
      → Found q.active_keys q.pending job rest
      → IsValid q
      → IsValid (launch job rest q)
  unfolding launch set_add
  launch-IsValid {job} {rest} q room f v = rw f.free (record {
    positive = v.positive;
    bounded = omega arith;
    counted = omega (arith, v.counted, length-append {0} q.active_keys (job.issue_key ∷ []));
    tracked = rw (map-snoc, v.tracked);
    distinct = Distinct-snoc job.issue_key q.active_keys f.free v.distinct;
    fifo = λ k.
        v.fifo k
        ∙ ap (λ l. of_key k q.started ++ l)
            (f.order k ∙ filter-append (λ j. text_beq j.issue_key k) (job ∷ []) rest)
        ∙ sym (append_assoc (of_key k q.started) (of_key k (job ∷ [])) (of_key k rest))
        ∙ ap (λ l. l ++ of_key k rest)
            (sym (filter-append (λ j. text_beq j.issue_key k) q.started (job ∷ [])));
  })

  push-IsValid : (job : Job R) (q : Queue R) → IsValid q → IsValid (push job q)
  unfolding push
  push-IsValid job q v = record {
    positive = v.positive;
    bounded = v.bounded;
    counted = v.counted;
    tracked = v.tracked;
    distinct = v.distinct;
    fifo = λ k. rw (filter-append, filter-append, v.fifo k, append_assoc);
  }

  includes-middle :
      (k : Text) (before after : List (Job R)) (job : Job R)
      → includes k (keys (before ++ job ∷ after)) ≡ false
      → text_beq job.issue_key k ≡ false
  includes-middle k [] after job h = ground arith
  includes-middle k (x ∷ before) after job h = includes-middle k before after job (ground arith)

  length-middle :
      (before after : List (Job R)) (job : Job R)
      → length (keys (before ++ job ∷ after)) ≡ suc (length (keys (before ++ after)))
  length-middle [] after job = refl
  length-middle (x ∷ before) after job = ap suc (length-middle before after job)

  -- Removing the key of one of the distinct jobs removes that job's entry alone.
  delete_key :
      (before after : List (Job R)) (job : Job R)
      → Distinct (keys (before ++ job ∷ after))
      → set_delete job.issue_key (keys (before ++ job ∷ after)) ≡ keys (before ++ after)
  unfolding set_delete
  delete_key [] after job d = ground (
    arith,
    set_delete_absent job.issue_key (keys after),
    d.0,
    text_beq_iff job.issue_key job.issue_key,
  )
  delete_key (x ∷ before) after job d = ground (
    arith,
    delete_key before after job d.1,
    includes-middle x.issue_key before after job d.0,
    text_beq_iff x.issue_key job.issue_key,
    text_beq_iff job.issue_key x.issue_key,
  )

  retire-IsValid :
      (before after : List (Job R)) (job : Job R) (q : Queue R)
      → q.running ≡ before ++ job ∷ after
      → IsValid q
      → IsValid (retire job.issue_key (before ++ after) q)
  unfolding retire
  retire-IsValid before after job q e v = record {
    positive = v.positive;
    bounded = omega (arith, v.bounded);
    counted =
        omega (arith, v.counted, ap length was, ap length now, length-middle before after job);
    tracked = sym now;
    distinct =
        unfold set_delete in
        Distinct-filter (λ k. not (text_beq k job.issue_key)) q.active_keys v.distinct;
    fifo = v.fifo;
  }
    where
      was : q.active_keys ≡ keys (before ++ job ∷ after)
      was = sym v.tracked ∙ ap keys e

      now : set_delete job.issue_key q.active_keys ≡ keys (before ++ after)
      now = rw was (delete_key before after job (subst Distinct was v.distinct))

  pub drain-IsValid : (q : Queue R) → IsValid q → IsValid (drain q)
  unfolding drain
  drain-IsValid q v =
      drain_loop_ind IsValid (λ p job rest room f w. launch-IsValid p room f w)
        (suc (length q.pending)) q v

  create-IsValid : (n : ℕ) → IsValid (create {R = R} n)
  unfolding create clamp_concurrency
  create-IsValid n = record {
    positive = ground arith;
    bounded = omega arith;
    counted = refl;
    tracked = refl;
    distinct = tt;
    fifo = λ k. refl;
  }

  -- An accepted call pushes its job, under the normalised key, and drains.
  pub enqueue-eq-ok :
      (key : Option Text) (run : Option R) (q : Queue R) {q' : Queue R}
      → enqueue key run q ≡ ok q'
      → (r : R) × (run ≡ some r)
        × (upper_key key ≢ [])
        × (q' ≡ drain (push (record { issue_key = upper_key key; run = r }) q))
  unfolding enqueue
  enqueue-eq-ok key none q h = absurd (ground arith)
  enqueue-eq-ok key (some r) q h =
      (r, refl, λ e. ground (arith, text_beq_iff (upper_key key) []), ground arith)

  enqueue-IsValid :
      (key : Option Text) (run : Option R) (q : Queue R) {q' : Queue R}
      → enqueue key run q ≡ ok q'
      → IsValid q
      → IsValid q'
  enqueue-IsValid key run q h v =
      let (r, _, _, e) = enqueue-eq-ok key run q h in
      subst IsValid (sym e) (drain-IsValid _ (push-IsValid _ q v))

  Step-IsValid : {q q' : Queue R} → Step q q' → IsValid q → IsValid q'
  unfolding settle
  Step-IsValid (enqueued key run q h) v = enqueue-IsValid key run q h v
  Step-IsValid (settled before after job q e) v =
      drain-IsValid (retire job.issue_key (before ++ after) q)
        (retire-IsValid before after job q e v)

  pub Reach-IsValid : {n : ℕ} {q : Queue R} → Reach n q → IsValid q
  Reach-IsValid {n} start = create-IsValid n
  Reach-IsValid (later r s) = Step-IsValid s (Reach-IsValid r)
