-- ===== src/EngTasks/Order/Sorted.antt =====
-- The sorted lists: in order, complete and stable.
use mathlib.Core.Path.{fun_ext}
use jira_execution_planner.Base.{
  ℕ, suc, subst, if◌then◌else◌, Option, none, refl, ◌∙◌, ◌<◌, ◌≡◌, ap, Bool, true, false, ◌&&◌,
  ◌||◌, some, List, [], ◌∷◌, arith, ltb, leb, nat_beq,
}
use jira_execution_planner.Base.Lists.{All, All-map}
use jira_execution_planner.Base.Text.{Text, text, text_beq, text_beq_iff, trim, trimmed, lower}
use jira_execution_planner.Base.Dict.{Dict, lookup}
use jira_execution_planner.Base.Sort.{
  SortsTo, sort_by, IsSorted, sort_by-IsSorted, sort_by-perm, sort_by_stable,
}
use jira_execution_planner.EngTasks.{
  Task, Epic, EpicGroup, task_rank, sort_tasks_by_priority, priority_order, rank_or_999, look_up,
}
use jira_execution_planner.Base.Comparator.{not_above}
use jira_execution_planner.EngTasks.Order.Priority.{most_urgent, effective-most_urgent}
use jira_execution_planner.EngTasks.Order.{
  priority, status, track_committed, track_flexible, epic_status_name, epic_track,
  get_status_phase_rank, get_project_track_rank, EpicSort, first_key, get_epic_effective_priority,
  compare_epic_groups, sort_epic_groups,
}

-- The index of `name` in `names`, or their number
abbrev pub position : List Text → Text → ℕ
position [] name = 0
position (n ∷ names) name = if text_beq name n then 0 else suc (position names name)

abbrev track_of : Option Epic → Option Text
track_of none = none
track_of (some epic) = epic.project_track

abbrev pub track_name : EpicGroup → Text
track_name group = lower (trimmed (track_of group.epic))

abbrev pub phase_key : Dict ℕ → Text → ℕ
phase_key phase_ranks [] = 999
phase_key phase_ranks (c ∷ name) = elim (lookup (lower (trim (c ∷ name))) phase_ranks) [
  | none ↦ 999
  | some rank ↦ rank
]

epic_track-eq : (epic : Option Epic) → epic_track epic ≡ track_of epic
unfolding epic_track
epic_track-eq none = refl
epic_track-eq (some epic) = refl

phase_rank-phase_key :
    (phase_ranks : Dict ℕ) (name : Text)
    → get_status_phase_rank name phase_ranks ≡ phase_key phase_ranks name
unfolding get_status_phase_rank
phase_rank-phase_key phase_ranks [] = refl
phase_rank-phase_key phase_ranks (c ∷ name) = refl

tracks_differ :
    (s : Text) → text_beq s (text "committed") ≡ true → text_beq s (text "flexible") ≡ false
tracks_differ s h = rw ((text_beq_iff s (text "committed")).0 h) (unfold text_beq in refl)

committed_first :
    (track : Option Text)
    → get_project_track_rank track true
      ≡ position (text "committed" ∷ text "flexible" ∷ []) (lower (trimmed track))
unfolding get_project_track_rank
committed_first track = ground arith

flexible_first :
    (track : Option Text)
    → get_project_track_rank track false
      ≡ position (text "flexible" ∷ text "committed" ∷ []) (lower (trimmed track))
unfolding get_project_track_rank
flexible_first track = ground (arith, tracks_differ (lower (trimmed track)))

module _ (mode : EpicSort) (order phase_ranks : Dict ℕ) where
  -- `a` may stand before `b`: by the key of the mode, and at equal keys by effective priority.
  abbrev pub epic_le : EpicGroup → EpicGroup → Bool
  epic_le a b =
      ltb (first_key mode phase_ranks a) (first_key mode phase_ranks b)
      || (nat_beq (first_key mode phase_ranks a) (first_key mode phase_ranks b)
          && leb (get_epic_effective_priority order a).rank
              (get_epic_effective_priority order b).rank)

  compare-epic_le :
      (a b : EpicGroup) → not_above (compare_epic_groups mode order phase_ranks a b) ≡ epic_le a b
  unfolding compare_epic_groups
  compare-epic_le a b = ground arith

  epic_le_total : (a b : EpicGroup) → epic_le a b ≡ false → epic_le b a ≡ true
  epic_le_total a b h = ground arith

  epic_le_trans : (a b c : EpicGroup) → epic_le a b ≡ true → epic_le b c ≡ true → epic_le a c ≡ true
  epic_le_trans a b c h k = ground arith

  sort-eq :
      (groups : List EpicGroup)
      → sort_epic_groups mode order phase_ranks groups ≡ sort_by epic_le groups
  unfolding sort_epic_groups
  sort-eq groups = ap (λ le. sort_by le groups) (fun_ext (λ a. fun_ext (λ b. compare-epic_le a b)))

  -- The position of the mode's own key, from what the mode promises: the position of the track in
  -- the mode's order of tracks, another track last; the rank of the status's phase, an unknown
  -- status at 999; and none for the priority.
  abbrev pub mode_key : EpicSort → EpicGroup → ℕ
  mode_key priority group = 0
  mode_key status group = phase_key phase_ranks (epic_status_name group.epic)
  mode_key track_committed group =
      position (text "committed" ∷ text "flexible" ∷ []) (track_name group)
  mode_key track_flexible group =
      position (text "flexible" ∷ text "committed" ∷ []) (track_name group)

  first_key-mode_key :
      (m : EpicSort) (group : EpicGroup) → first_key m phase_ranks group ≡ mode_key m group
  unfolding first_key
  first_key-mode_key priority group = refl
  first_key-mode_key status group = phase_rank-phase_key phase_ranks (epic_status_name group.epic)
  first_key-mode_key track_committed group =
      committed_first (epic_track group.epic)
      ∙ ap (λ t. position (text "committed" ∷ text "flexible" ∷ []) (lower (trimmed t)))
          (epic_track-eq group.epic)
  first_key-mode_key track_flexible group =
      flexible_first (epic_track group.epic)
      ∙ ap (λ t. position (text "flexible" ∷ text "committed" ∷ []) (lower (trimmed t)))
          (epic_track-eq group.epic)

  -- `a` may stand before `b`: by the position of the mode's key, and at equal positions by the
  -- most urgent priority among the tasks.
  abbrev pub stands_before : EpicGroup → EpicGroup → Bool
  stands_before a b =
      ltb (mode_key mode a) (mode_key mode b)
      || (nat_beq (mode_key mode a) (mode_key mode b)
          && leb (most_urgent order a.tasks) (most_urgent order b.tasks))

  epic_le-stands_before : (a b : EpicGroup) → epic_le a b ≡ stands_before a b
  epic_le-stands_before a b =
      rw
        (
          first_key-mode_key mode a,
          first_key-mode_key mode b,
          effective-most_urgent order a,
          effective-most_urgent order b,
        )
        refl

  -- The epic groups come out with the mode's tracks (or status phases) in the mode's order, those
  -- of no such track (or phase) last, and within each by the most urgent priority of a task; by
  -- that priority alone in the priority mode. None is lost, and groups that tie keep their order.
  pub sort_epic_groups-SortsTo :
      (groups : List EpicGroup)
      → SortsTo stands_before groups (sort_epic_groups mode order phase_ranks groups)
  sort_epic_groups-SortsTo groups =
      subst (λ le. SortsTo le groups (sort_epic_groups mode order phase_ranks groups))
        (fun_ext (λ a. fun_ext (λ b. epic_le-stands_before a b)))
        (rw (sort-eq groups) (record {
          in_order = sort_by-IsSorted epic_le epic_le_total epic_le_trans groups;
          complete = sort_by-perm epic_le groups;
          stable = λ a. sort_by_stable epic_le epic_le_trans a groups;
        }))

module _ (order : Dict ℕ) where
  abbrev pub task_le : Task → Task → Bool
  task_le a b = leb (task_rank order a) (task_rank order b)

  task_le_trans : (a b c : Task) → task_le a b ≡ true → task_le b c ≡ true → task_le a c ≡ true
  task_le_trans a b c h k = ground arith

  -- Tasks come out in order of the rank that the comparator reads, complete and stable.
  pub sort_tasks-SortsTo :
      (tasks : List Task) → SortsTo task_le tasks (sort_tasks_by_priority order tasks)
  unfolding sort_tasks_by_priority
  sort_tasks-SortsTo tasks = record {
    in_order = sort_by-IsSorted task_le (λ a b h. ground arith) task_le_trans tasks;
    complete = sort_by-perm task_le tasks;
    stable = λ a. sort_by_stable task_le task_le_trans a tasks;
  }

-- A priority whose rank the comparator reads as it stands.
abbrev pub IsRanked : Task → Type 0
IsRanked t = task_rank priority_order t < 999

-- No `Blocker` stands before a task of any other known priority.
abbrev pub BlockersLast : List Task → Type 0
BlockersLast [] = Unit
BlockersLast (x ∷ xs) =
    (x.priority ≡ some (text "Blocker") → All (λ y. ¬ (IsRanked y)) xs) × BlockersLast xs

blocker_rank : (x : Task) → x.priority ≡ some (text "Blocker") → task_rank priority_order x ≡ 999
unfolding task_rank lookup text_beq
blocker_rank x e = ap (λ p. rank_or_999 (look_up p priority_order)) e

IsSorted-BlockersLast : (xs : List Task) → IsSorted (task_le priority_order) xs → BlockersLast xs
IsSorted-BlockersLast [] h = tt
IsSorted-BlockersLast (x ∷ xs) h =
    (λ e. All-map (λ y le r. ground (arith, blocker_rank x e)) xs h.0, IsSorted-BlockersLast xs h.1)

-- The rank 0 of `Blocker` reads as missing, so the task sort puts blockers behind every task of
-- another known priority.
pub sort_tasks-BlockersLast :
    (tasks : List Task) → BlockersLast (sort_tasks_by_priority priority_order tasks)
sort_tasks-BlockersLast tasks =
    IsSorted-BlockersLast (sort_tasks_by_priority priority_order tasks)
      (sort_tasks-SortsTo priority_order tasks).in_order
