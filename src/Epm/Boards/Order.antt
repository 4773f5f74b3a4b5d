-- ===== src/Epm/Boards/Order.antt =====
-- What the order of the boards guarantees.
use Prim.Native.Nat.{compare, Ordering}
use mathlib.Core.Path.{fun_ext}
use jira_execution_planner.Base.{
  ◌≡◌, ◌||◌, not, leb, refl, sym, ap, ◌∙◌, subst, ℕ, Bool, true, false, Option, none, some, List,
  arith,
}
use jira_execution_planner.Base.Text.{Text}
use jira_execution_planner.Base.Sort.{SortsTo}
use jira_execution_planner.Base.Comparator.{
  first_then, chain-first_then, IsComparator, Comparator, chain, chain-IsComparator,
  key-IsComparator, on-IsComparator, sort-SortsTo, le_of, reverse, not_above,
}
use jira_execution_planner.Base.Indexed.{sort_indexed, sort_indexed_lem}
use jira_execution_planner.Epm.{Board}
use jira_execution_planner.Epm.Boards.Urgency.{urgency, rank-le}
use jira_execution_planner.Epm.Dates.{is_recently_completed_epm_project, parse_epm_project_date}
use jira_execution_planner.Epm.Boards.{
  Sort, priority, updated_desc, updated_asc, Direction, asc, desc, normalize_epm_project_sort,
  compare_nullable_time, compare_epm_board_name, completed_rank, updated_time, by_priority, by_time,
  by_sort, compare_boards, sort_epm_rollup_boards, get_epm_board_priority_rank,
}

compare_nullable_time-swaps :
    (d : Direction) (a b : Option ℕ)
    → compare_nullable_time b a d ≡ reverse (compare_nullable_time a b d)
unfolding compare_nullable_time
compare_nullable_time-swaps d none none = refl
compare_nullable_time-swaps d none (some b) = refl
compare_nullable_time-swaps d (some a) none = refl
compare_nullable_time-swaps asc (some a) (some b) = ground arith
compare_nullable_time-swaps desc (some a) (some b) = ground arith

compare_nullable_time-carries :
    (d : Direction) (a b c : Option ℕ)
    → not_above (compare_nullable_time a b d) ≡ true
    → not_above (compare_nullable_time b c d) ≡ true
    → not_above (compare_nullable_time a c d) ≡ true
unfolding compare_nullable_time
compare_nullable_time-carries d none none none h k = refl
compare_nullable_time-carries d none none (some c) h k = k
compare_nullable_time-carries d none (some b) c h k = absurd (ground arith)
compare_nullable_time-carries d (some a) none none h k = refl
compare_nullable_time-carries d (some a) none (some c) h k = absurd (ground arith)
compare_nullable_time-carries d (some a) (some b) none h k = refl
compare_nullable_time-carries asc (some a) (some b) (some c) h k = ground arith
compare_nullable_time-carries desc (some a) (some b) (some c) h k = ground arith

-- Dates compare consistently in both directions, a missing date last in either.
compare_nullable_time-IsComparator :
    (d : Direction) → IsComparator (λ a b. compare_nullable_time a b d)
compare_nullable_time-IsComparator d = record {
  swaps = compare_nullable_time-swaps d;
  carries = compare_nullable_time-carries d;
}

module _ (utc_day : ℕ → ℕ → ℕ → ℕ) (now_day : Option ℕ) where
  -- By recent completion, then by the keys of the sort.
  abbrev pub board_order : Sort → Comparator Board
  board_order sort_key =
      chain (λ a b. compare (completed_rank utc_day now_day a) (completed_rank utc_day now_day b))
        (by_sort utc_day now_day sort_key)

  by_time-IsComparator : (d : Direction) → IsComparator (by_time utc_day now_day d)
  by_time-IsComparator d =
      on-IsComparator (updated_time utc_day now_day) (λ a b. compare_nullable_time a b d)
        (compare_nullable_time-IsComparator d)

  by_sort-IsComparator : (sort_key : Sort) → IsComparator (by_sort utc_day now_day sort_key)
  by_sort-IsComparator priority =
      chain-IsComparator (by_priority utc_day now_day) (by_time utc_day now_day desc)
        (key-IsComparator get_epm_board_priority_rank) (by_time-IsComparator desc)
  by_sort-IsComparator updated_desc =
      chain-IsComparator (by_time utc_day now_day desc) (by_priority utc_day now_day)
        (by_time-IsComparator desc) (key-IsComparator get_epm_board_priority_rank)
  by_sort-IsComparator updated_asc =
      chain-IsComparator (by_time utc_day now_day asc) (by_priority utc_day now_day)
        (by_time-IsComparator asc) (key-IsComparator get_epm_board_priority_rank)

  board_order-IsComparator : (sort_key : Sort) → IsComparator (board_order sort_key)
  board_order-IsComparator sort_key =
      chain-IsComparator _ _ (key-IsComparator (completed_rank utc_day now_day))
        (by_sort-IsComparator sort_key)

-- The order of dates, a missing one last
abbrev pub latest_first : Option ℕ → Option ℕ → Bool
latest_first none none = true
latest_first none (some r) = false
latest_first (some l) none = true
latest_first (some l) (some r) = leb r l

abbrev pub earliest_first : Option ℕ → Option ℕ → Bool
earliest_first none none = true
earliest_first none (some r) = false
earliest_first (some l) none = true
earliest_first (some l) (some r) = leb l r

latest_first-eq : (a b : Option ℕ) → not_above (compare_nullable_time a b desc) ≡ latest_first a b
unfolding compare_nullable_time
latest_first-eq none none = refl
latest_first-eq none (some r) = refl
latest_first-eq (some l) none = refl
latest_first-eq (some l) (some r) = ground arith

earliest_first-eq :
    (a b : Option ℕ) → not_above (compare_nullable_time a b asc) ≡ earliest_first a b
unfolding compare_nullable_time
earliest_first-eq none none = refl
earliest_first-eq none (some r) = refl
earliest_first-eq (some l) none = refl
earliest_first-eq (some l) (some r) = ground arith

module _ (utc_day : ℕ → ℕ → ℕ → ℕ) (now_day : Option ℕ) where
  abbrev pub recent_first : Board → Board → Bool
  recent_first a b =
      is_recently_completed_epm_project utc_day now_day a.project
      || not (is_recently_completed_epm_project utc_day now_day b.project)

  abbrev pub urgent_first : Board → Board → Bool
  urgent_first a b = leb (urgency a) (urgency b)

  abbrev pub updated : Board → Option ℕ
  updated board = parse_epm_project_date utc_day now_day board.project.latest_update_date

  -- What a sort key promises
  abbrev pub promised : Sort → Board → Board → Bool
  promised priority = first_then urgent_first (λ a b. latest_first (updated a) (updated b))
  promised updated_desc = first_then (λ a b. latest_first (updated a) (updated b)) urgent_first
  promised updated_asc = first_then (λ a b. earliest_first (updated a) (updated b)) urgent_first

  by_priority-eq : (a b : Board) → le_of (by_priority utc_day now_day) a b ≡ urgent_first a b
  by_priority-eq a b = ground (arith, rank-le a b)

  by_sort-eq :
      (sort_key : Sort) (a b : Board)
      → le_of (by_sort utc_day now_day sort_key) a b ≡ promised sort_key a b
  by_sort-eq priority a b = ground (
    arith,
    chain-first_then (by_priority utc_day now_day) (by_time utc_day now_day desc)
        (key-IsComparator get_epm_board_priority_rank) a b,
    by_priority-eq a b,
    by_priority-eq b a,
    latest_first-eq (updated a) (updated b),
  )
  by_sort-eq updated_desc a b = ground (
    arith,
    chain-first_then (by_time utc_day now_day desc) (by_priority utc_day now_day)
        (by_time-IsComparator utc_day now_day desc) a b,
    by_priority-eq a b,
    latest_first-eq (updated a) (updated b),
    latest_first-eq (updated b) (updated a),
  )
  by_sort-eq updated_asc a b = ground (
    arith,
    chain-first_then (by_time utc_day now_day asc) (by_priority utc_day now_day)
        (by_time-IsComparator utc_day now_day asc) a b,
    by_priority-eq a b,
    earliest_first-eq (updated a) (updated b),
    earliest_first-eq (updated b) (updated a),
  )

  board_order-promised :
      (sort_key : Sort) (a b : Board)
      → le_of (board_order utc_day now_day sort_key) a b
        ≡ first_then recent_first (promised sort_key) a b
  board_order-promised sort_key a b =
      chain-first_then _ (by_sort utc_day now_day sort_key)
        (key-IsComparator (completed_rank utc_day now_day)) a b
      ∙ ground (arith, by_sort-eq sort_key a b)

module _ (locale_compare : Text → Text → Ordering) (consistent : IsComparator locale_compare) where
  compares_itself : (t : Text) → locale_compare t t ≡ Ordering.eq
  compares_itself t = ground (arith, consistent.swaps t t)

  names_tie : (a b : Board) → compare_epm_board_name locale_compare a b ≡ Ordering.eq
  unfolding compare_epm_board_name
  names_tie a b = compares_itself _

  module _ (utc_day : ℕ → ℕ → ℕ → ℕ) (now_day : Option ℕ) where
    compare-board_order :
        (sort_key : Sort) (a b : Board)
        → compare_boards locale_compare utc_day now_day sort_key a b
          ≡ board_order utc_day now_day sort_key a b
    unfolding compare_boards
    compare-board_order sort_key a b = ground (arith, names_tie a b)

    -- Where `localeCompare` is consistent, the boards of recently completed projects come first;
    -- among them and among the others, the most urgent priority of an open epic decides and then
    -- the latest update, or the update and then the priority, as the sort key says, a missing
    -- date last in either direction. None is lost, and boards that tie keep the order they came
    -- in, whatever their names.
    pub sort_epm_rollup_boards-SortsTo :
        (boards : List Board) (sort_key : Option Text)
        → SortsTo
            (first_then
              (recent_first utc_day now_day)
              (promised utc_day now_day (normalize_epm_project_sort sort_key)))
            boards
            (sort_epm_rollup_boards locale_compare utc_day now_day boards sort_key)
    unfolding sort_epm_rollup_boards
    sort_epm_rollup_boards-SortsTo boards sort_key =
        let key = normalize_epm_project_sort sort_key in
        let order = board_order utc_day now_day key in
        let same : compare_boards locale_compare utc_day now_day key ≡ order =
          fun_ext (λ a. fun_ext (λ b. compare-board_order key a b)) in
        subst
          (λ le.
            SortsTo le boards
              (sort_indexed (compare_boards locale_compare utc_day now_day key) boards))
          (fun_ext (λ a. fun_ext (λ b. board_order-promised utc_day now_day key a b)))
          (subst (SortsTo (le_of order) boards)
            (sym (ap (λ o. sort_indexed o boards) same ∙ sort_indexed_lem order boards))
            (sort-SortsTo order (board_order-IsComparator utc_day now_day key) boards))
