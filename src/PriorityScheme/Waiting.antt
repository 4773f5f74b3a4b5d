-- ===== src/PriorityScheme/Waiting.antt =====
-- Every promise of the cache is that of a fetch under way, and what is cached can be used.
use jira_execution_planner.Base.{
  ℕ, ◌≡◌, refl, ap, Bool, true, ◌&&◌, Option, none, some, List, [], ◌∷◌, ◌++◌, arith, Bool-cases,
  inl, inr, nat_beq,
}
use jira_execution_planner.Base.Lists.{any, any-middle, any-append}
use jira_execution_planner.Base.Text.{Text, text_beq}
use jira_execution_planner.Base.Dict.{Dict, lookup, insert, lookup-insert, lookup-remove}
use jira_execution_planner.PriorityScheme.Cache.{
  SchemeFetch, PriorityCache, clear_priority_options_cache, start_fetch, load_with,
  load_priority_options_for_tuple, settle_fetch, scheme_resolved, scheme_failed, Reach, start,
  cleared, loaded, arrived, broke,
}

abbrev pub is_fetch : Text → ℕ → SchemeFetch → Bool
is_fetch k number f = text_beq f.cache_key k && nat_beq f.number number

-- The two maps against the outstanding fetches, cleared or not.
record AreMapsValid {ℓ} {P : Type ℓ} (has_priorities : P → Bool) (options : Dict P)
    (promises : Dict ℕ) (in_flight : List SchemeFetch) : Type ℓ where
  waiting :
      (k : Text) (number : ℕ)
      → lookup k promises ≡ some number
      → any (is_fetch k number) in_flight ≡ true
  usable :
      (k : Text) (payload : P) → lookup k options ≡ some payload → has_priorities payload ≡ true

-- The promise, if there is one, is that of an outstanding fetch for the tuple.
abbrev pub WaitsFor : Text → List SchemeFetch → Option ℕ → Type 0
WaitsFor k in_flight none = Unit
WaitsFor k in_flight (some number) = any (is_fetch k number) in_flight ≡ true

WaitsFor-of :
    (k : Text) (in_flight : List SchemeFetch) (p : Option ℕ)
    → ((number : ℕ) → p ≡ some number → any (is_fetch k number) in_flight ≡ true)
    → WaitsFor k in_flight p
WaitsFor-of k in_flight none h = tt
WaitsFor-of k in_flight (some number) h = h number refl

-- The payload, if there is one, lists priorities.
abbrev pub IsUsable {ℓ} : {P : Type ℓ} → (P → Bool) → Option P → Type 0
IsUsable has_priorities none = Unit
IsUsable has_priorities (some payload) = has_priorities payload ≡ true

module _ {ℓ} {P : Type ℓ} (has_priorities : P → Bool) where
  IsUsable-of :
      (o : Option P)
      → ((payload : P) → o ≡ some payload → has_priorities payload ≡ true)
      → IsUsable has_priorities o
  IsUsable-of none h = tt
  IsUsable-of (some payload) h = h payload refl

  abbrev IsValid : PriorityCache P → Type ℓ
  IsValid c = AreMapsValid has_priorities c.options c.promises c.in_flight

  loaded-IsValid :
      (cache_key : Text) (c : PriorityCache P)
      → IsValid c
      → (o : Option P) (p : Option ℕ) → IsValid (load_with o p cache_key c).1
  unfolding start_fetch
  loaded-IsValid cache_key c h (some payload) p = h
  loaded-IsValid cache_key c h none (some number) = h
  loaded-IsValid cache_key c h none none = record {
    waiting = λ k number e. ground (
      arith,
      e,
      lookup-insert cache_key k c.next_number c.promises,
      h.waiting k number,
      any-append (is_fetch k number) c.in_flight
          (record { number = c.next_number; cache_key = cache_key } ∷ []),
    );
    usable = h.usable;
  }

  settled-IsValid :
      (xs ys : List SchemeFetch) (f : SchemeFetch) (c : PriorityCache P)
      → c.in_flight ≡ xs ++ f ∷ ys
      → IsValid c
      → IsValid (settle_fetch f (xs ++ ys) c)
  unfolding settle_fetch
  settled-IsValid xs ys f c e h = record {
    waiting = λ k number l. ground (
      arith,
      l,
      lookup-remove f.cache_key k c.promises,
      h.waiting k number,
      any-middle (is_fetch k number) xs ys f,
      ap (any (is_fetch k number)) e,
    );
    usable = h.usable;
  }

  put-IsValid :
      (f : SchemeFetch) (payload : P) (c : PriorityCache P)
      → IsValid c
      → has_priorities payload ≡ true
      → IsValid (record c { options = insert f.cache_key payload c.options })
  put-IsValid f payload c h e = record {
    waiting = h.waiting;
    usable =
        λ k p l. ground (arith, l, e, h.usable k p, lookup-insert f.cache_key k payload c.options);
  }

  resolved-IsValid :
      (xs ys : List SchemeFetch) (f : SchemeFetch) (payload : P) (c : PriorityCache P)
      → c.in_flight ≡ xs ++ f ∷ ys
      → IsValid c
      → IsValid (scheme_resolved has_priorities f (xs ++ ys) payload c)
  unfolding scheme_resolved
  resolved-IsValid xs ys f payload c e h = elim (Bool-cases (has_priorities payload)) [
    | inl k ↦ rw k (
        settled-IsValid xs ys f (record c { options = insert f.cache_key payload c.options }) e
          (put-IsValid f payload c h k))
    | inr k ↦ rw k (settled-IsValid xs ys f c e h)
  ]

  any-IsValid : {b : Bool} (c : PriorityCache P) → Reach has_priorities b c → IsValid c
  unfolding clear_priority_options_cache load_priority_options_for_tuple scheme_failed lookup
  any-IsValid c start = record { waiting = λ k number e. cc; usable = λ k p e. cc }
  any-IsValid c (cleared c' r) = record { waiting = λ k number e. cc; usable = λ k p e. cc }
  any-IsValid c (loaded key c' r) = loaded-IsValid key c' (any-IsValid c' r) _ _
  any-IsValid c (arrived xs ys f payload c' e r) =
      resolved-IsValid xs ys f payload c' e (any-IsValid c' r)
  any-IsValid c (broke xs ys f c' e r) = settled-IsValid xs ys f c' e (any-IsValid c' r)

  -- In every state, cleared or not: each promise that a load would hand out is that of a fetch for
  -- the same tuple that has no answer yet, and each payload that is cached lists priorities.
  pub Reach-IsWaiting :
      {b : Bool} (c : PriorityCache P) (k : Text)
      → Reach has_priorities b c
      → WaitsFor k c.in_flight (lookup k c.promises) × IsUsable has_priorities (lookup k c.options)
  Reach-IsWaiting c k r =
      let h = any-IsValid c r in
      (
        WaitsFor-of k c.in_flight (lookup k c.promises) (h.waiting k),
        IsUsable-of (lookup k c.options) (h.usable k),
      )
