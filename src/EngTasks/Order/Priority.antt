-- ===== src/EngTasks/Order/Priority.antt =====
-- The effective priority of an epic is the most urgent one of its tasks.
use Prim.Native.Nat.{min}
use jira_execution_planner.Base.{
  ℕ, ◌≤◌, ◌≡◌, refl, ◌⊎◌, inl, inr, Option, none, some, List, [], ◌∷◌, arith, if◌then◌else◌, ltb,
  Bool-cases, sym, ap, ◌∙◌,
}
use jira_execution_planner.Base.Lists.{non_empty, All}
use jira_execution_planner.Base.Text.{Text}
use jira_execution_planner.Base.Dict.{Dict, lookup}
use jira_execution_planner.EngTasks.{Task, EpicGroup}
use jira_execution_planner.EngTasks.Order.{
  Effective, rank_or_998, improve, best_priority, rank_if_named, get_epic_effective_priority,
}

-- The rank of a task's priority: 999 without one.
abbrev pub urgency : Dict ℕ → Option Text → ℕ
urgency order none = 999
urgency order (some name) = if non_empty name then rank_or_998 (lookup name order) else 999

-- Some task has the name of `best`, and its rank.
abbrev pub IsNamedBy : Dict ℕ → Effective → List Task → Type 0
IsNamedBy order best [] = ⊥
IsNamedBy order best (task ∷ tasks) =
    ((task.priority ≡ best.name) × (urgency order task.priority ≡ best.rank))
    ⊎ IsNamedBy order best tasks

module _ (order : Dict ℕ) where
  -- A missing name stands with the rank 999.
  record IsKept (best : Effective) : Type 0 where
    kept : rank_if_named best ≡ best
    bound : best.rank ≤ 999

  improve-IsKept :
      (best : Effective) (p : Option Text) → IsKept best → IsKept (improve order best p)
  unfolding improve
  improve-IsKept best none h = h
  improve-IsKept best (some name) h = elim (Bool-cases (non_empty name)) [
    | inl e ↦ rw e (elim (Bool-cases (ltb (rank_or_998 (lookup name order)) best.rank)) [
      | inl less ↦ rw less (record { kept = refl; bound = ground (arith, h.bound) })
      | inr more ↦ rw more h
    ])
    | inr e ↦ rw e h
  ]

  improve-le :
      (best : Effective) (p : Option Text)
      → best.rank ≤ 999
      → ((improve order best p).rank ≤ best.rank) × ((improve order best p).rank ≤ urgency order p)
  unfolding improve
  improve-le best none h = (omega arith, h)
  improve-le best (some name) h = ground arith

  improve_cases :
      (best : Effective) (p : Option Text)
      → (improve order best p ≡ best)
        ⊎ ((p ≡ (improve order best p).name) × (urgency order p ≡ (improve order best p).rank))
  unfolding improve
  improve_cases best none = inl refl
  improve_cases best (some name) = elim (Bool-cases (non_empty name)) [
    | inl e ↦ rw e (elim (Bool-cases (ltb (rank_or_998 (lookup name order)) best.rank)) [
      | inl less ↦ rw less (inr (refl, refl))
      | inr more ↦ rw more (inl refl)
    ])
    | inr e ↦ rw e (inl refl)
  ]

  record IsBest (start best : Effective) (tasks : List Task) : Type 0 where
    kept : IsKept best
    le_start : best.rank ≤ start.rank
    le_all : All (λ t. best.rank ≤ urgency order t.priority) tasks
    named : (best ≡ start) ⊎ IsNamedBy order best tasks

  best_priority-IsBest :
      (start : Effective) (tasks : List Task)
      → IsKept start
      → IsBest start (best_priority order start tasks) tasks
  unfolding best_priority
  best_priority-IsBest start [] k = record {
    kept = k;
    le_start = omega arith;
    le_all = tt;
    named = inl refl;
  }
  best_priority-IsBest start (t ∷ tasks) k =
      let next = improve order start t.priority in
      let ih = best_priority-IsBest next tasks (improve-IsKept start t.priority k) in
      let le = improve-le start t.priority k.bound in
      record {
        kept = ih.kept;
        le_start = omega (arith, ih.le_start, le.0);
        le_all = (omega (arith, ih.le_start, le.1), ih.le_all);
        named = elim ih.named [
          | inr later ↦ inr (inr later)
          | inl same ↦ elim (improve_cases start t.priority) [
            | inl kept ↦ inl (same ∙ kept)
            | inr (n, r) ↦
                inr (inl (n ∙ ap (λ b. b.name) (sym same), r ∙ ap (λ b. b.rank) (sym same)))
          ]
        ];
      }

  -- The effective priority is at least as urgent as that of every task, and it is the priority of
  -- one of the tasks; without any priority below 999 it has no name and the rank 999.
  pub effective_lem :
      (group : EpicGroup)
      → let best = get_epic_effective_priority order group in
        All (λ t. best.rank ≤ urgency order t.priority) group.tasks
        × (((best.name ≡ none) × (best.rank ≡ 999)) ⊎ IsNamedBy order best group.tasks)
  unfolding get_epic_effective_priority
  effective_lem group =
      let start : Effective = record { name = none; rank = 999 } in
      let best = best_priority order start group.tasks in
      let b =
        best_priority-IsBest start group.tasks (record { kept = refl; bound = omega arith }) in
      rw (b.kept.kept) (
        b.le_all,
        elim b.named [
          | inl same ↦ inl (ap (λ x. x.name) same, ap (λ x. x.rank) same)
          | inr n ↦ inr n
        ],
      )

-- The most urgent priority of the tasks, 999 of none
abbrev pub most_urgent : Dict ℕ → List Task → ℕ
most_urgent order [] = 999
most_urgent order (task ∷ tasks) = min (urgency order task.priority) (most_urgent order tasks)

module _ (order : Dict ℕ) where
  improve-min :
      (best : Effective) (p : Option Text)
      → best.rank ≤ 999
      → (improve order best p).rank ≡ min best.rank (urgency order p)
  unfolding improve
  improve-min best none h = ground arith
  improve-min best (some name) h = ground arith

  best_priority-min :
      (best : Effective) (tasks : List Task)
      → best.rank ≤ 999
      → (best_priority order best tasks).rank ≡ min best.rank (most_urgent order tasks)
  unfolding best_priority
  best_priority-min best [] h = ground arith
  best_priority-min best (t ∷ tasks) h =
      let step = improve-min best t.priority h in
      let ih = best_priority-min (improve order best t.priority) tasks (ground arith) in
      ground arith

  most_urgent-le : (tasks : List Task) → most_urgent order tasks ≤ 999
  most_urgent-le [] = omega arith
  most_urgent-le (t ∷ tasks) = omega (arith, most_urgent-le tasks)

  -- The effective priority of an epic ranks as the most urgent of its tasks.
  pub effective-most_urgent :
      (group : EpicGroup)
      → (get_epic_effective_priority order group).rank ≡ most_urgent order group.tasks
  unfolding get_epic_effective_priority
  effective-most_urgent group =
      let start : Effective = record { name = none; rank = 999 } in
      let b =
        best_priority-IsBest order start group.tasks
          (record { kept = refl; bound = omega arith }) in
      let m = best_priority-min start group.tasks (omega arith) in
      ap (λ x. x.rank) b.kept.kept ∙ omega (arith, m, most_urgent-le group.tasks)
