-- ===== src/EngTasks/Order.antt =====
-- The order of epic groups: effective priority, status phase and project track.
pub mod Priority
pub mod Sorted
use Prim.Native.Nat.{compare, Ordering}
use jira_execution_planner.Base.{
  ℕ, Bool, true, false, Option, none, some, List, [], ◌∷◌, ◌++◌, if◌then◌else◌, ltb, nat_beq,
}
use jira_execution_planner.Base.Lists.{non_empty}
use jira_execution_planner.Base.Text.{Text, text, text_beq, trim, lower, trimmed}
use jira_execution_planner.Base.Dict.{Dict, lookup}
use jira_execution_planner.Base.Sort.{sort_by}
use jira_execution_planner.Base.Comparator.{not_above}
use jira_execution_planner.EngTasks.{Task, Epic, EpicGroup, priority_order}

-- ENG_EPIC_SORT_OPTIONS, the default first
pub data EpicSort : Type 0 where
  priority status track_committed track_flexible : EpicSort

unfoldable pub normalize_eng_epic_sort : Text → EpicSort
normalize_eng_epic_sort value =
    if text_beq value (text "status")
    then status
    else if text_beq value (text "track-committed")
    then track_committed
    else if text_beq value (text "track-flexible")
    then track_flexible
    else priority

abbrev pub ranks : ℕ → List Text → Dict ℕ → Dict ℕ
ranks n [] rest = rest
ranks n (name ∷ names) rest = (name, n) ∷ ranks n names rest

abbrev pub default_status_phase_ranks : Dict ℕ
default_status_phase_ranks =
    ranks 0
      (text "to do"
        ∷ text "todo"
        ∷ text "open"
        ∷ text "reopened"
        ∷ text "backlog"
        ∷ text "selected for development"
        ∷ [])
      (ranks 1 (text "analysis" ∷ []) (
        ranks 2
          (text "accepted" ∷ text "awaiting validation" ∷ text "postponed" ∷ text "pending" ∷ [])
          (ranks 3
            (text "blocked"
              ∷ text "external block"
              ∷ text "on hold"
              ∷ text "impediment"
              ∷ text "waiting"
              ∷ text "waiting for release"
              ∷ [])
            (ranks 4
              (text "in progress"
                ∷ text "in development"
                ∷ text "in review"
                ∷ text "in testing"
                ∷ text "incomplete"
                ∷ text "release"
                ∷ [])
              (ranks 5
                (text "done"
                  ∷ text "closed"
                  ∷ text "resolved"
                  ∷ text "released"
                  ∷ text "complete"
                  ∷ text "completed"
                  ∷ text "killed"
                  ∷ text "cancelled"
                  ∷ text "canceled"
                  ∷ text "rejected"
                  ∷ text "won't do"
                  ∷ [])
                [])))))

-- The best name and rank so far; the name is missing until a task has a priority.
pub record Effective : Type 0 where
  pub name : Option Text
  pub rank : ℕ

-- A name that the order does not know ranks 998.
abbrev pub rank_or_998 : Option ℕ → ℕ
rank_or_998 none = 998
rank_or_998 (some n) = n

unfoldable pub improve : Dict ℕ → Effective → Option Text → Effective
improve order best none = best
improve order best (some name) =
    let resolved = rank_or_998 (lookup name order) in
    if non_empty name
    then (if ltb resolved best.rank then record { name = some name; rank = resolved } else best)
    else best

unfoldable pub best_priority : Dict ℕ → Effective → List Task → Effective
best_priority order best [] = best
best_priority order best (task ∷ tasks) =
    best_priority order (improve order best task.priority) tasks

abbrev pub rank_if_named : Effective → Effective
rank_if_named best = record {
  name = best.name;
  rank = elim best.name [ none ↦ 999 | some _ ↦ best.rank ];
}

unfoldable pub get_epic_effective_priority : Dict ℕ → EpicGroup → Effective
get_epic_effective_priority order group =
    rank_if_named (best_priority order (record { name = none; rank = 999 }) group.tasks)

abbrev pub rank_or_last : Option ℕ → ℕ
rank_or_last none = 999
rank_or_last (some n) = n

unfoldable pub get_status_phase_rank : Text → Dict ℕ → ℕ
get_status_phase_rank name phase_ranks =
    if non_empty name then rank_or_last (lookup (lower (trim name)) phase_ranks) else 999

unfoldable pub get_project_track_rank : Option Text → Bool → ℕ
get_project_track_rank track committed_first =
    let t = lower (trimmed track) in
    if text_beq t (text "committed")
    then (if committed_first then 0 else 1)
    else if text_beq t (text "flexible")
    then (if committed_first then 1 else 0)
    else 2

-- `epicStatusName`, and `a.epic && a.epic.projectTrack`
unfoldable pub epic_status_name : Option Epic → Text
epic_status_name none = []
epic_status_name (some epic) = elim epic.status [ none ↦ [] | some s ↦ s ]

unfoldable pub epic_track : Option Epic → Option Text
epic_track none = none
epic_track (some epic) = epic.project_track

-- The key that a mode compares before the effective priority.
unfoldable pub first_key : EpicSort → Dict ℕ → EpicGroup → ℕ
first_key priority phase_ranks group = 0
first_key status phase_ranks group = get_status_phase_rank (epic_status_name group.epic) phase_ranks
first_key track_committed phase_ranks group = get_project_track_rank (epic_track group.epic) true
first_key track_flexible phase_ranks group = get_project_track_rank (epic_track group.epic) false

-- The sign of `compareEpicGroups(a, b, mode)`.
unfoldable pub compare_epic_groups : EpicSort → Dict ℕ → Dict ℕ → EpicGroup → EpicGroup → Ordering
compare_epic_groups mode order phase_ranks a b =
    let ka = first_key mode phase_ranks a in
    let kb = first_key mode phase_ranks b in
    let pa = (get_epic_effective_priority order a).rank in
    let pb = (get_epic_effective_priority order b).rank in
    if nat_beq ka kb then compare pa pb else compare ka kb

unfoldable pub sort_epic_groups : EpicSort → Dict ℕ → Dict ℕ → List EpicGroup → List EpicGroup
sort_epic_groups mode order phase_ranks groups =
    sort_by (λ a b. not_above (compare_epic_groups mode order phase_ranks a b)) groups
