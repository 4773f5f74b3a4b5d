-- ===== src/PriorityScheme/Tests.antt =====
-- Options of an issue, and the cache through a shared fetch and a clearing.
use jira_execution_planner.Base.{
  ℕ, ◌+◌, ◌≤◌, ◌≡◌, refl, Bool, true, false, none, some, [], ◌∷◌, map, ltb,
}
use jira_execution_planner.Base.Text.{Text, text, text_beq, trim, trimmed, lower}
use jira_execution_planner.Base.Dict.{lookup, insert, remove, is_there}
use jira_execution_planner.Base.Sort.{sort_by, insert_sorted}
use jira_execution_planner.PlanningStats.{before_dash}
use jira_execution_planner.IssueStatus.Summary.{
  is_success, count_results, summarize_results, success,
}
use jira_execution_planner.PriorityScheme.{
  PriorityOption, priority_object, issue_priority_name, build_catch_up_priority_targets,
  starts_with, text_includes, is_recognized_priority_icon_name, priority_option_cache_key,
  sort_priority_options_by_rank, resolve_priority_rank, build_priority_bucket,
  summarize_priority_transition_results, apply_local_priority_update,
}
use jira_execution_planner.PriorityScheme.Cache.{
  PriorityCache, empty_cache, resolved, clear_priority_options_cache, start_fetch,
  load_priority_options_for_tuple, settle_fetch, scheme_resolved, scheme_failed, Reach, start,
  loaded,
}
use jira_execution_planner.PriorityScheme.Shared.{one_if, count_for, Reach-IsShared}

program : Unit {0}
unfolding text_beq trim trimmed lower lookup insert remove sort_by insert_sorted before_dash
    is_success count_results summarize_results issue_priority_name build_catch_up_priority_targets
    starts_with text_includes is_recognized_priority_icon_name priority_option_cache_key
    sort_priority_options_by_rank resolve_priority_rank build_priority_bucket
    summarize_priority_transition_results apply_local_priority_update clear_priority_options_cache
    start_fetch load_priority_options_for_tuple settle_fetch scheme_resolved scheme_failed
program = tt

target-flat :
    build_catch_up_priority_targets
      (record {
        key = some (text " A-1 ");
        fields = none;
        priority = priority_object (some (text "High"));
        issue_type = none;
        summary = none;
      })
      (text "Epic")
    ≡ some (record {
      key = text "A-1";
      issue_type = text "Epic";
      current_priority = text "High";
      summary = [];
    })
unfolding program
target-flat = refl

icon-highest :
    map is_recognized_priority_icon_name
      (some (text "P0 (HIGHEST)") ∷ some (text "urgent") ∷ none ∷ [])
    ≡ true ∷ false ∷ false ∷ []
unfolding program
icon-highest = refl

keys-of : priority_option_cache_key (some (text "A-1")) none (some (text " Epic")) ≡ text "A|Epic"
unfolding program
keys-of = refl

key-none : priority_option_cache_key none none none ≡ text "key:"
unfolding program
key-none = refl

abbrev low : PriorityOption
low = record { id = some (text "4"); name = none; rank = some 40 }

abbrev high : PriorityOption
high = record { id = some (text "2"); name = none; rank = some 20 }

sorted : sort_priority_options_by_rank (low ∷ high ∷ []) ≡ high ∷ low ∷ []
unfolding program
sorted = refl

bucket-high :
    build_priority_bucket (resolve_priority_rank (low ∷ high ∷ []) (some (text " 2"))) ≡ text "high"
unfolding program
bucket-high = refl

summary-priority :
    (summarize_priority_transition_results (some (text "already_in_priority") ∷ [])).result
    ≡ success
unfolding program
summary-priority = refl

patched-one :
    apply_local_priority_update {P = ℕ}
      (record { key = text "A-1"; priority = 1 } ∷ record { key = text "A-2"; priority = 1 } ∷ [])
      (some (text " A-2"))
      (some 5)
    ≡ record { key = text "A-1"; priority = 1 } ∷ record { key = text "A-2"; priority = 5 } ∷ []
unfolding program
patched-one = refl

-- A payload is the number of its priorities.
abbrev has_some : ℕ → Bool
has_some n = ltb 0 n

abbrev key_a : Text
key_a = text "A|Epic"

abbrev shared : PriorityCache ℕ
shared =
    (load_priority_options_for_tuple key_a (load_priority_options_for_tuple key_a empty_cache).1).1

shared_lem : shared.in_flight ≡ record { number = 0; cache_key = key_a } ∷ []
unfolding program
shared_lem = refl

abbrev shared-reached : Reach has_some false shared
shared-reached = loaded key_a _ (loaded key_a _ start)

-- After a clearing the tuple is fetched anew, and the older answer is cached all the same.
abbrev twice : PriorityCache ℕ
twice = (load_priority_options_for_tuple key_a (clear_priority_options_cache shared)).1

twice_lem : count_for key_a twice.in_flight ≡ 2
unfolding program
twice_lem = refl

cached-stale :
    (load_priority_options_for_tuple key_a (
      scheme_resolved has_some
        (record { number = 0; cache_key = key_a })
        (record { number = 1; cache_key = key_a } ∷ [])
        7
        twice)).0
    ≡ resolved 7
unfolding program
cached-stale = refl

Reach-IsShared_example :
    (count_for key_a shared.in_flight ≡ one_if (is_there (lookup key_a shared.promises)))
    × (count_for key_a shared.in_flight + one_if (is_there (lookup key_a shared.options)) ≤ 1)
Reach-IsShared_example = Reach-IsShared has_some shared key_a shared-reached
