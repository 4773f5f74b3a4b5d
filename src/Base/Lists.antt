-- ===== src/Base/Lists.antt =====
-- Arrays and sets of JavaScript as lists: `filter`, `includes`/`has`, `some`, `every`, the order
-- of first insertion that `new Set(xs)` keeps, and predicates on lists by recursion.
use Prim.Native.Nat.{ℕ, suc, ◌+◌, ◌≤◌}
use mathlib.Core.Path.{◌≡◌, refl, ap, subst}
use mathlib.Core.Logic.{inl, inr}
use mathlib.Core.Bool.{Bool, true, false, ◌&&◌, ◌||◌, not}
use mathlib.Core.Option.{Option, none, some}
use mathlib.Core.List.{List, [], ◌∷◌, ◌++◌}
use native.Mathlib.Omega.{arith}
use jira_execution_planner.Base.Tests.{HasEq, ◌==◌, if◌then◌else◌, Bool-cases}

module _ {ℓ} {A : Type ℓ} where
  abbrev pub length : List A → ℕ
  length [] = 0
  length (x ∷ xs) = suc (length xs)

  -- `xs.filter(p)`
  abbrev pub filter : (A → Bool) → List A → List A
  filter p [] = []
  filter p (x ∷ xs) = let rest = filter p xs in if p x then x ∷ rest else rest

  -- `xs.some(p)`
  abbrev pub any : (A → Bool) → List A → Bool
  any p [] = false
  any p (x ∷ xs) = p x || any p xs

  -- `xs.every(p)`
  abbrev pub all : (A → Bool) → List A → Bool
  all p [] = true
  all p (x ∷ xs) = p x && all p xs

  -- `xs.find(p)`
  abbrev pub find : (A → Bool) → List A → Option A
  find p [] = none
  find p (x ∷ xs) = if p x then some x else find p xs

  -- `xs.length > 0`
  abbrev pub non_empty : List A → Bool
  non_empty [] = false
  non_empty (x ∷ xs) = true

  abbrev pub head_or : A → List A → A
  head_or d [] = d
  head_or d (x ∷ xs) = x

  abbrev pub All {κ} : (A → Type κ) → List A → Type κ
  All P [] = Unit
  All P (x ∷ xs) = P x × All P xs

module _ {ℓ} {A : Type ℓ} where
  pub length-append : (xs ys : List A) → length (xs ++ ys) ≡ length xs + length ys
  length-append [] ys = omega arith
  length-append (x ∷ xs) ys = omega (arith, length-append xs ys)

  pub length-filter-le : (p : A → Bool) (xs : List A) → length (filter p xs) ≤ length xs
  length-filter-le p [] = omega arith
  length-filter-le p (x ∷ xs) = ground (arith, length-filter-le p xs)

  pub filter-append :
      (p : A → Bool) (xs ys : List A) → filter p (xs ++ ys) ≡ filter p xs ++ filter p ys
  filter-append p [] ys = refl
  filter-append p (x ∷ xs) ys = ground (arith, filter-append p xs ys)

  pub filter_idem : (p : A → Bool) (xs : List A) → filter p (filter p xs) ≡ filter p xs
  filter_idem p [] = refl
  filter_idem p (x ∷ xs) = elim (Bool-cases (p x)) [
    | inl h ↦ rw (h, h) (ap (λ l. x ∷ l) (filter_idem p xs))
    | inr h ↦ rw h (filter_idem p xs)
  ]

  pub filter-eq_of_All : (p : A → Bool) (xs : List A) → All (λ x. p x ≡ true) xs → filter p xs ≡ xs
  filter-eq_of_All p [] h = refl
  filter-eq_of_All p (x ∷ xs) h = rw h.0 (ap (λ l. x ∷ l) (filter-eq_of_All p xs h.1))

  pub filter-All : (p : A → Bool) (xs : List A) → All (λ x. p x ≡ true) (filter p xs)
  filter-All p [] = tt
  filter-All p (x ∷ xs) = elim (Bool-cases (p x)) [
    | inl h ↦ rw h (h, filter-All p xs)
    | inr h ↦ rw h (filter-All p xs)
  ]

  pub All-filter {κ} :
      (P : A → Type κ) (p : A → Bool) (xs : List A) → All P xs → All P (filter p xs)
  All-filter P p [] h = tt
  All-filter P p (x ∷ xs) h = elim (Bool-cases (p x)) [
    | inl e ↦ rw e (h.0, All-filter P p xs h.1)
    | inr e ↦ rw e (All-filter P p xs h.1)
  ]

  pub All-append {κ} : (P : A → Type κ) (xs ys : List A) → All P xs → All P ys → All P (xs ++ ys)
  All-append P [] ys h k = k
  All-append P (x ∷ xs) ys h k = (h.0, All-append P xs ys h.1 k)

  pub All-map {κ μ} :
      {P : A → Type κ} {Q : A → Type μ}
      → ((a : A) → P a → Q a)
      → (xs : List A) → All P xs
      → All Q xs
  All-map f [] h = tt
  All-map f (x ∷ xs) h = (f x h.0, All-map f xs h.1)

  -- A list without the member in its middle
  pub any-middle :
      (p : A → Bool) (xs ys : List A) (a : A) → any p (xs ++ a ∷ ys) ≡ (p a || any p (xs ++ ys))
  any-middle p [] ys a = refl
  any-middle p (x ∷ xs) ys a = ground (arith, any-middle p xs ys a)

  pub any-append : (p : A → Bool) (xs ys : List A) → any p (xs ++ ys) ≡ (any p xs || any p ys)
  any-append p [] ys = refl
  any-append p (x ∷ xs) ys = ground (arith, any-append p xs ys)

  pub All-middle {κ} :
      (P : A → Type κ) (xs ys : List A) (a : A) → All P (xs ++ a ∷ ys) → P a × All P (xs ++ ys)
  All-middle P [] ys a h = h
  All-middle P (x ∷ xs) ys a h = let (p, rest) = All-middle P xs ys a h.1 in (p, (h.0, rest))

module _ {ℓ} {A : Type ℓ} ⦃e : HasEq A⦄ where
  -- `xs.includes(a)`, `set.has(a)`
  abbrev pub includes : A → List A → Bool
  includes a [] = false
  includes a (x ∷ xs) = x == a || includes a xs

  -- The members of `xs` that are not in `seen`, each once, in order of first occurrence.
  unfoldable pub unique_from : List A → List A → List A
  unique_from seen [] = []
  unique_from seen (x ∷ xs) =
      let old = unique_from seen xs in
      let new = x ∷ unique_from (x ∷ seen) xs in if includes x seen then old else new

  -- `[...new Set(xs)]`
  abbrev pub unique : List A → List A
  unique xs = unique_from [] xs

  abbrev pub Distinct : List A → Type 0
  Distinct [] = Unit
  Distinct (x ∷ xs) = (includes x xs ≡ false) × Distinct xs

module _ {ℓ} {A : Type ℓ} ⦃e : HasEq A⦄ where
  pub same_refl : (a : A) → e.same a a ≡ true
  same_refl a = (e.same_iff a a).1 refl

  pub includes-append :
      (a : A) (xs ys : List A) → includes a (xs ++ ys) ≡ (includes a xs || includes a ys)
  includes-append a [] ys = refl
  includes-append a (x ∷ xs) ys = ground (arith, includes-append a xs ys)

  pub includes-filter :
      (p : A → Bool) (a : A) (xs : List A) → includes a (filter p xs) ≡ (p a && includes a xs)
  includes-filter p a [] = ground arith
  includes-filter p a (x ∷ xs) = elim (Bool-cases (e.same x a)) [
    | inl same ↦
        let q : p x ≡ p a = ap p ((e.same_iff x a).0 same) in ground (arith, includes-filter p a xs)
    | inr other ↦ ground (arith, includes-filter p a xs)
  ]

  pub includes-unique_from :
      (a : A) (seen xs : List A)
      → includes a (unique_from seen xs) ≡ (not (includes a seen) && includes a xs)
  unfolding unique_from
  includes-unique_from a seen [] = ground arith
  includes-unique_from a seen (x ∷ xs) = elim (Bool-cases (e.same x a)) [
    | inl same ↦
        let q : includes x seen ≡ includes a seen =
          ap (λ b. includes b seen) ((e.same_iff x a).0 same) in
        ground (arith, includes-unique_from a seen xs, includes-unique_from a (x ∷ seen) xs)
    | inr other ↦
        ground (arith, includes-unique_from a seen xs, includes-unique_from a (x ∷ seen) xs)
  ]

  pub includes-unique : (a : A) (xs : List A) → includes a (unique xs) ≡ includes a xs
  includes-unique a xs = ground (arith, includes-unique_from a [] xs)

  pub unique_from-Distinct : (seen xs : List A) → Distinct (unique_from seen xs)
  unfolding unique_from
  unique_from-Distinct seen [] = tt
  unique_from-Distinct seen (x ∷ xs) = elim (Bool-cases (includes x seen)) [
    | inl h ↦ rw h (unique_from-Distinct seen xs)
    | inr h ↦ rw h (
      ground (arith, includes-unique_from x (x ∷ seen) xs, same_refl x),
      unique_from-Distinct (x ∷ seen) xs,
    )
  ]

  -- No member of `xs` is in `seen`.
  abbrev pub Fresh : List A → List A → Type 0
  Fresh seen [] = Unit
  Fresh seen (x ∷ xs) = (includes x seen ≡ false) × Fresh seen xs

  pub Fresh-cons :
      (x : A) (seen xs : List A) → includes x xs ≡ false → Fresh seen xs → Fresh (x ∷ seen) xs
  Fresh-cons x seen [] h f = tt
  Fresh-cons x seen (y ∷ ys) h f =
      (ground (arith, e.same_iff x y, e.same_iff y x, f.0), Fresh-cons x seen ys (ground arith) f.1)

  pub Fresh-snoc :
      (x : A) (seen xs : List A) → includes x xs ≡ false → Fresh seen xs → Fresh (seen ++ x ∷ []) xs
  Fresh-snoc x seen [] h f = tt
  Fresh-snoc x seen (y ∷ ys) h f = (
    ground (arith, includes-append y seen (x ∷ []), e.same_iff x y, e.same_iff y x, f.0),
    Fresh-snoc x seen ys (ground arith) f.1,
  )

  pub unique_from-eq_of_Distinct :
      (seen xs : List A) → Distinct xs → Fresh seen xs → unique_from seen xs ≡ xs
  unfolding unique_from
  unique_from-eq_of_Distinct seen [] d f = refl
  unique_from-eq_of_Distinct seen (x ∷ xs) d f = rw f.0 (
      ap (λ l. x ∷ l) (unique_from-eq_of_Distinct (x ∷ seen) xs d.1 (Fresh-cons x seen xs d.0 f.1)))

  pub Fresh-nil : (xs : List A) → Fresh [] xs
  Fresh-nil [] = tt
  Fresh-nil (x ∷ xs) = (refl, Fresh-nil xs)

  pub unique-eq_of_Distinct : (xs : List A) → Distinct xs → unique xs ≡ xs
  unique-eq_of_Distinct xs d = unique_from-eq_of_Distinct [] xs d (Fresh-nil xs)

  pub unique-Distinct : (xs : List A) → Distinct (unique xs)
  unique-Distinct xs = unique_from-Distinct [] xs

  pub Distinct-filter : (p : A → Bool) (xs : List A) → Distinct xs → Distinct (filter p xs)
  Distinct-filter p [] d = tt
  Distinct-filter p (x ∷ xs) d = elim (Bool-cases (p x)) [
    | inl h ↦ rw h (ground (arith, includes-filter p x xs, d.0), Distinct-filter p xs d.1)
    | inr h ↦ rw h (Distinct-filter p xs d.1)
  ]

  pub Distinct-snoc :
      (k : A) (s : List A) → includes k s ≡ false → Distinct s → Distinct (s ++ k ∷ [])
  Distinct-snoc k [] h d = (refl, tt)
  Distinct-snoc k (x ∷ s) h d = (
    ground (arith, includes-append x s (k ∷ []), d.0, e.same_iff x k, e.same_iff k x),
    Distinct-snoc k s (ground arith) d.1,
  )

  pub All-unique_from {κ} :
      (P : A → Type κ) (seen xs : List A) → All P xs → All P (unique_from seen xs)
  unfolding unique_from
  All-unique_from P seen [] h = tt
  All-unique_from P seen (x ∷ xs) h = elim (Bool-cases (includes x seen)) [
    | inl k ↦ rw k (All-unique_from P seen xs h.1)
    | inr k ↦ rw k (h.0, All-unique_from P (x ∷ seen) xs h.1)
  ]

  pub All_of_includes {κ} :
      (P : A → Type κ) (a : A) (xs : List A) → All P xs → includes a xs ≡ true → P a
  All_of_includes P a [] h m = absurd (ground arith)
  All_of_includes P a (x ∷ xs) h m = elim (Bool-cases (e.same x a)) [
    | inl same ↦ subst P ((e.same_iff x a).0 same) h.0
    | inr other ↦ All_of_includes P a xs h.1 (ground arith)
  ]

  pub All-of_members {κ} :
      {P : A → Type κ} (xs : List A) → ((a : A) → includes a xs ≡ true → P a) → All P xs
  All-of_members [] f = tt
  All-of_members (x ∷ xs) f =
      (f x (ground (arith, same_refl x)), All-of_members xs (λ a m. f a (ground (arith, m))))
