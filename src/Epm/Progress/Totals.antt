-- ===== src/Epm/Progress/Totals.antt =====
-- The points of a project add up.
use jira_execution_planner.Base.{
  ◌≡◌, refl, ap, ◌∙◌, ◌&&◌, Bool, true, false, ◌||◌, not, Option, none, some, List, [], ◌∷◌, arith,
  if_cases, if◌then◌else◌,
}
use jira_execution_planner.Base.Lists.{includes}
use jira_execution_planner.Base.Text.{Text, text, text_beq, text_equality, text_beq_iff}
use jira_execution_planner.Epm.{Double, Issue, RollupTree}
use jira_execution_planner.Epm.Status.{completed_progress_statuses, in_progress_statuses}
use jira_execution_planner.Epm.Progress.{
  Arithmetic, Progress, collect_epm_project_stories, get_epm_story_points, status_of, add_story,
  add_stories, no_progress, finish, build_epm_project_progress,
}

abbrev pub is_killed : Text → Bool
is_killed s = text_beq s (text "killed")

abbrev pub is_done : Text → Bool
is_done s = text_beq s (text "done")

abbrev pub is_incomplete : Text → Bool
is_incomplete s = text_beq s (text "incomplete")

abbrev pub is_in_progress : Text → Bool
is_in_progress s = text_beq s (text "in progress")

abbrev pub is_completed : Text → Bool
is_completed s = is_done s || is_incomplete s

beq_sym : (s t : Text) → text_beq s t ≡ text_beq t s
beq_sym s t = ground (arith, text_beq_iff s t, text_beq_iff t s)

apart : (a b s : Text) → text_beq a b ≡ false → text_beq s a ≡ true → text_beq s b ≡ false
apart a b s h k = rw ((text_beq_iff s a).0 k) h

-- What `add_story` tests of a status, and that at most one of it holds.
record Tests (s : Text) : Type 0 where
  ended : includes s completed_progress_statuses ≡ (is_done s || is_incomplete s)
  started : includes s in_progress_statuses ≡ is_in_progress s
  killed_apart :
      is_killed s ≡ true
      → (is_done s ≡ false) × ((is_incomplete s ≡ false) × (is_in_progress s ≡ false))
  done_apart : is_done s ≡ true → (is_incomplete s ≡ false) × (is_in_progress s ≡ false)
  incomplete_apart : is_incomplete s ≡ true → is_in_progress s ≡ false

Tests-of : (s : Text) → Tests s
Tests-of s =
    let d : text_beq (text "done") s ≡ is_done s = beq_sym (text "done") s in
    let i : text_beq (text "incomplete") s ≡ is_incomplete s = beq_sym (text "incomplete") s in
    let p : text_beq (text "in progress") s ≡ is_in_progress s = beq_sym (text "in progress") s in
    record {
      ended = ground (arith, d, i);
      started = ground (arith, p);
      killed_apart = λ k. (
        apart (text "killed") (text "done") s (unfold text_beq in refl) k,
        (
          apart (text "killed") (text "incomplete") s (unfold text_beq in refl) k,
          apart (text "killed") (text "in progress") s (unfold text_beq in refl) k,
        ),
      );
      done_apart = λ k. (
        apart (text "done") (text "incomplete") s (unfold text_beq in refl) k,
        apart (text "done") (text "in progress") s (unfold text_beq in refl) k,
      );
      incomplete_apart =
          λ k. apart (text "incomplete") (text "in progress") s (unfold text_beq in refl) k;
    }

module _ (a : Arithmetic) where
  -- The points of the stories whose status satisfies `p`, added to `n` one by one in their order;
  -- points that are not positive are left out.
  abbrev pub sum_from : Double → (Text → Bool) → List Issue → Double
  sum_from n p [] = n
  sum_from n p (story ∷ stories) =
      let points = get_epm_story_points a story in
      sum_from (if a.is_positive points && p (status_of story) then a.add n points else n) p stories

  abbrev pub sum_of : (Text → Bool) → List Issue → Double
  sum_of p stories = sum_from a.zero p stories

  record Adds (p q : Progress) (stories : List Issue) : Type 0 where
    killed : q.killed ≡ sum_from p.killed is_killed stories
    done : q.done ≡ sum_from p.done is_done stories
    incomplete : q.incomplete ≡ sum_from p.incomplete is_incomplete stories
    in_progress : q.in_progress ≡ sum_from p.in_progress is_in_progress stories
    completed : q.completed ≡ sum_from p.completed is_completed stories
    total : q.total ≡ sum_from p.total (λ s. not (is_killed s)) stories

  add_story-Adds : (p : Progress) (story : Issue) → Adds p (add_story a p story) (story ∷ [])
  unfolding add_story
  add_story-Adds p story =
      let t = Tests-of (status_of story) in
      let ended = t.ended in
      let started = t.started in
      let killed_apart = t.killed_apart in
      let done_apart = t.done_apart in
      let incomplete_apart = t.incomplete_apart in
      record {
        killed = ground arith;
        done = ground arith;
        incomplete = ground arith;
        in_progress = ground arith;
        completed = ground arith;
        total = ground arith;
      }

  Adds-trans :
      (p q r : Progress) (story : Issue) (stories : List Issue)
      → Adds p q (story ∷ [])
      → Adds q r stories
      → Adds p r (story ∷ stories)
  Adds-trans p q r story stories f g = record {
    killed = g.killed ∙ ap (λ n. sum_from n is_killed stories) f.killed;
    done = g.done ∙ ap (λ n. sum_from n is_done stories) f.done;
    incomplete = g.incomplete ∙ ap (λ n. sum_from n is_incomplete stories) f.incomplete;
    in_progress = g.in_progress ∙ ap (λ n. sum_from n is_in_progress stories) f.in_progress;
    completed = g.completed ∙ ap (λ n. sum_from n is_completed stories) f.completed;
    total = g.total ∙ ap (λ n. sum_from n (λ s. not (is_killed s)) stories) f.total;
  }

  add_stories-Adds :
      (p : Progress) (stories : List Issue) → Adds p (add_stories a p stories) stories
  unfolding add_stories
  add_stories-Adds p [] = record {
    killed = refl;
    done = refl;
    incomplete = refl;
    in_progress = refl;
    completed = refl;
    total = refl;
  }
  add_stories-Adds p (story ∷ stories) =
      Adds-trans p (add_story a p story) _ story stories (add_story-Adds p story)
        (add_stories-Adds (add_story a p story) stories)

  -- The sums by status, and what is computed of them.
  pub record Reports (stories : List Issue) (p : Progress) : Type 0 where
    pub done : p.done ≡ sum_of is_done stories
    pub incomplete : p.incomplete ≡ sum_of is_incomplete stories
    pub completed : p.completed ≡ sum_of is_completed stories
    pub in_progress : p.in_progress ≡ sum_of is_in_progress stories
    pub killed : p.killed ≡ sum_of is_killed stories
    pub total : p.total ≡ sum_of (λ s. not (is_killed s)) stories
    pub remaining : p.remaining ≡ a.max_zero (a.subtract p.total p.completed)
    pub waiting : p.waiting ≡ a.max_zero (a.subtract (a.subtract p.total p.completed) p.in_progress)
    pub percent : p.percent ≡ a.percent_of p.completed p.total

  abbrev pub IsProgressOf : List Issue → Option Progress → Type 0
  IsProgressOf stories none = a.is_positive (sum_of (λ s. not (is_killed s)) stories) ≡ false
  IsProgressOf stories (some p) =
      (a.is_positive (sum_of (λ s. not (is_killed s)) stories) ≡ true) × Reports stories p

  finish-IsProgressOf :
      (p : Progress) (stories : List Issue)
      → Adds (no_progress a) p stories
      → IsProgressOf stories (finish a p)
  unfolding finish
  finish-IsProgressOf p stories f =
      let total = f.total in
      if_cases (IsProgressOf stories) (not (a.is_positive p.total)) (λ h. ground arith)
        (λ h. (
          ground arith,
          record {
            done = f.done;
            incomplete = f.incomplete;
            completed = f.completed;
            in_progress = f.in_progress;
            killed = f.killed;
            total = f.total;
            remaining = refl;
            waiting = refl;
            percent = refl;
          },
        ))

  -- Whatever the arithmetic of the numbers: the progress of a tree is none exactly where the
  -- total is not positive. Else the done, incomplete, completed (done or incomplete), in-progress,
  -- killed and total (not killed) points are those of the stories of such a status with positive
  -- points, added in the order of the tree; the remaining and waiting points and the percentage
  -- are computed of the sums, the negative ones set to 0.
  pub build_epm_project_progress_lem :
      (rollup : RollupTree)
      → IsProgressOf (collect_epm_project_stories rollup) (build_epm_project_progress a rollup)
  unfolding build_epm_project_progress
  build_epm_project_progress_lem rollup =
      finish-IsProgressOf _ _
        (add_stories-Adds (no_progress a) (collect_epm_project_stories rollup))
