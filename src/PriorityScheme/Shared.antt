-- ===== src/PriorityScheme/Shared.antt =====
-- Without clearings, fetches are shared, and schemes are not fetched again.
use jira_execution_planner.Base.{
  ℕ, ◌+◌, ◌≤◌, ◌≡◌, refl, ap, Bool, true, false, Option, none, some, List, [], ◌∷◌, ◌++◌, arith,
  if◌then◌else◌, Bool-cases, inl, inr,
}
use jira_execution_planner.Base.Text.{Text, text_beq, text_beq_iff}
use jira_execution_planner.Base.Dict.{Dict, lookup, is_there, lookup-insert, lookup-remove}
use jira_execution_planner.PriorityScheme.Cache.{
  SchemeFetch, PriorityCache, start_fetch, load_with, load_priority_options_for_tuple, settle_fetch,
  scheme_resolved, scheme_failed, Reach, start, cleared, loaded, arrived, broke,
}

abbrev pub one_if : Bool → ℕ
one_if b = if b then 1 else 0

-- How many fetches for the tuple have no answer yet
abbrev pub count_for : Text → List SchemeFetch → ℕ
count_for k [] = 0
count_for k (f ∷ fs) = one_if (text_beq f.cache_key k) + count_for k fs

count_for-middle :
    (k : Text) (xs ys : List SchemeFetch) (f : SchemeFetch)
    → count_for k (xs ++ f ∷ ys) ≡ one_if (text_beq f.cache_key k) + count_for k (xs ++ ys)
count_for-middle k [] ys f = refl
count_for-middle k (x ∷ xs) ys f = omega (arith, count_for-middle k xs ys f)

count_for-append :
    (k : Text) (xs ys : List SchemeFetch) → count_for k (xs ++ ys) ≡ count_for k xs + count_for k ys
count_for-append k [] ys = omega arith
count_for-append k (x ∷ xs) ys = omega (arith, count_for-append k xs ys)

-- While the cache is never cleared: the promises are those of the outstanding fetches, one for a
-- tuple at most, and none for a tuple that is cached.
record AreShared {ℓ} {P : Type ℓ} (options : Dict P) (promises : Dict ℕ)
    (in_flight : List SchemeFetch) : Type ℓ where
  counted : (k : Text) → count_for k in_flight ≡ one_if (is_there (lookup k promises))
  settled : (k : Text) → is_there (lookup k options) ≡ true → count_for k in_flight ≡ 0

module _ {ℓ} {P : Type ℓ} (has_priorities : P → Bool) where
  abbrev Shares : PriorityCache P → Type ℓ
  Shares c = AreShared c.options c.promises c.in_flight

  loaded-Shares :
      (cache_key : Text) (c : PriorityCache P)
      → Shares c
      → (o : Option P) (p : Option ℕ) → lookup cache_key c.options ≡ o
      → lookup cache_key c.promises ≡ p
      → Shares (load_with o p cache_key c).1
  unfolding start_fetch
  loaded-Shares cache_key c h (some payload) p eo ep = h
  loaded-Shares cache_key c h none (some number) eo ep = h
  loaded-Shares cache_key c h none none eo ep =
      let f : SchemeFetch = record { number = c.next_number; cache_key = cache_key } in
      record {
        counted = λ k. ground (
          arith,
          eo,
          ep,
          h.counted k,
          h.counted cache_key,
          count_for-append k c.in_flight (f ∷ []),
          lookup-insert cache_key k c.next_number c.promises,
          text_beq_iff cache_key k,
        );
        settled = λ k e. ground (
          arith,
          eo,
          ep,
          e,
          h.settled k,
          h.counted k,
          count_for-append k c.in_flight (f ∷ []),
          text_beq_iff cache_key k,
        );
      }

  settled-Shares :
      (xs ys : List SchemeFetch) (f : SchemeFetch) (c : PriorityCache P)
      → c.in_flight ≡ xs ++ f ∷ ys
      → Shares c
      → Shares (settle_fetch f (xs ++ ys) c)
  unfolding settle_fetch
  settled-Shares xs ys f c e h = record {
    counted = λ k. ground (
      arith,
      lookup-remove f.cache_key k c.promises,
      h.counted k,
      count_for-middle k xs ys f,
      ap (count_for k) e,
    );
    settled = λ k l. ground (arith, l, h.settled k, count_for-middle k xs ys f, ap (count_for k) e);
  }

  resolved-Shares :
      (xs ys : List SchemeFetch) (f : SchemeFetch) (payload : P) (c : PriorityCache P)
      → c.in_flight ≡ xs ++ f ∷ ys
      → Shares c
      → Shares (scheme_resolved has_priorities f (xs ++ ys) payload c)
  unfolding scheme_resolved settle_fetch
  resolved-Shares xs ys f payload c e h = elim (Bool-cases (has_priorities payload)) [
    | inl p ↦ rw p (record {
      counted = (settled-Shares xs ys f c e h).counted;
      settled = λ k l. ground (
        arith,
        l,
        lookup-insert f.cache_key k payload c.options,
        h.settled k,
        h.counted k,
        count_for-middle k xs ys f,
        ap (count_for k) e,
      );
    })
    | inr p ↦ rw p (settled-Shares xs ys f c e h)
  ]

  quiet-Shares : {b : Bool} (c : PriorityCache P) → Reach has_priorities b c → b ≡ false → Shares c
  unfolding load_priority_options_for_tuple scheme_failed lookup
  quiet-Shares c start q = record { counted = λ k. refl; settled = λ k e. refl }
  quiet-Shares c (cleared c' r) q = absurd (ground (arith, q))
  quiet-Shares c (loaded key c' r) q = loaded-Shares key c' (quiet-Shares c' r q) _ _ refl refl
  quiet-Shares c (arrived xs ys f payload c' e r) q =
      resolved-Shares xs ys f payload c' e (quiet-Shares c' r q)
  quiet-Shares c (broke xs ys f c' e r) q = settled-Shares xs ys f c' e (quiet-Shares c' r q)

  -- While the cache is never cleared, a tuple has an outstanding fetch exactly if a load would hand
  -- out its promise, never two, and none once its scheme is cached.
  pub Reach-IsShared :
      (c : PriorityCache P) (k : Text)
      → Reach has_priorities false c
      → (count_for k c.in_flight ≡ one_if (is_there (lookup k c.promises)))
        × (count_for k c.in_flight + one_if (is_there (lookup k c.options)) ≤ 1)
  Reach-IsShared c k r =
      let h = quiet-Shares c r refl in (h.counted k, ground (arith, h.counted k, h.settled k))
