-- ===== src/PriorityScheme/Cache.antt =====
-- The shared cache of priority schemes in frontend/src/eng/useEngPriorityTransitions.js:
-- `loadPriorityOptionsForTuple` and `clearPriorityOptionsCache`. A promise is the number of its
-- fetch. The callbacks of one answer run without a break, so an answer is one step.
use jira_execution_planner.Base.{
  ℕ, suc, ◌≡◌, Bool, true, false, Option, none, some, List, [], ◌∷◌, ◌++◌, if◌then◌else◌,
}
use jira_execution_planner.Base.Text.{Text}
use jira_execution_planner.Base.Dict.{Dict, lookup, insert, remove}

pub record SchemeFetch : Type 0 where
  pub number : ℕ
  pub cache_key : Text

-- `P` is the payload of a response.
pub record PriorityCache {ℓ} (P : Type ℓ) : Type ℓ where
  pub options : Dict P
  pub promises : Dict ℕ
  -- the fetches without an answer, in the order of their start
  pub in_flight : List SchemeFetch
  pub next_number : ℕ

-- What a load returns: a promise that is resolved, or that of a fetch
pub data Loading {ℓ} (P : Type ℓ) : Type ℓ where
  resolved : P → Loading P
  promised : ℕ → Loading P

module _ {ℓ} {P : Type ℓ} where
  abbrev pub empty_cache : PriorityCache P
  empty_cache = record { options = []; promises = []; in_flight = []; next_number = 0 }

  unfoldable pub clear_priority_options_cache : PriorityCache P → PriorityCache P
  clear_priority_options_cache c = record c { options = []; promises = [] }

  unfoldable pub start_fetch : Text → PriorityCache P → PriorityCache P
  start_fetch cache_key c =
      let number = c.next_number in
      record {
        options = c.options;
        promises = insert cache_key number c.promises;
        in_flight = c.in_flight ++ record { number = number; cache_key = cache_key } ∷ [];
        next_number = suc number;
      }

  -- `loadPriorityOptionsForTuple`, on what the two maps have under the key
  abbrev pub load_with : Option P → Option ℕ → Text → PriorityCache P → Loading P × PriorityCache P
  load_with (some payload) promise cache_key c = (resolved payload, c)
  load_with none (some number) cache_key c = (promised number, c)
  load_with none none cache_key c = (promised c.next_number, start_fetch cache_key c)

  unfoldable pub load_priority_options_for_tuple :
      Text → PriorityCache P → Loading P × PriorityCache P
  load_priority_options_for_tuple cache_key c =
      load_with (lookup cache_key c.options) (lookup cache_key c.promises) cache_key c

  -- `finally`; `others` are the fetches without this one.
  unfoldable pub settle_fetch : SchemeFetch → List SchemeFetch → PriorityCache P → PriorityCache P
  settle_fetch f others c = record c {
    promises = remove f.cache_key c.promises;
    in_flight = others;
  }

  -- `has_priorities` tells a payload with a list of priorities that is not empty.
  unfoldable pub scheme_resolved :
      (P → Bool) → SchemeFetch → List SchemeFetch → P → PriorityCache P → PriorityCache P
  scheme_resolved has_priorities f others payload c = settle_fetch f others (
      if has_priorities payload
      then record c { options = insert f.cache_key payload c.options }
      else c)

  unfoldable pub scheme_failed : SchemeFetch → List SchemeFetch → PriorityCache P → PriorityCache P
  scheme_failed f others c = settle_fetch f others c

  -- The states that can come up; the first index tells whether the cache was ever cleared.
  pub data Reach (has_priorities : P → Bool) : Bool → PriorityCache P → Type ℓ where
    start : Reach has_priorities false empty_cache
    cleared :
        {b : Bool} (c : PriorityCache P)
        → Reach has_priorities b c
        → Reach has_priorities true (clear_priority_options_cache c)
    loaded :
        {b : Bool} (cache_key : Text) (c : PriorityCache P)
        → Reach has_priorities b c
        → Reach has_priorities b (load_priority_options_for_tuple cache_key c).1
    arrived :
        {b : Bool} (before after : List SchemeFetch) (f : SchemeFetch) (payload : P)
        (c : PriorityCache P)
        → c.in_flight ≡ before ++ f ∷ after
        → Reach has_priorities b c
        → Reach has_priorities b (scheme_resolved has_priorities f (before ++ after) payload c)
    broke :
        {b : Bool} (before after : List SchemeFetch) (f : SchemeFetch) (c : PriorityCache P)
        → c.in_flight ≡ before ++ f ∷ after
        → Reach has_priorities b c
        → Reach has_priorities b (scheme_failed f (before ++ after) c)
