-- ===== src/Base/Comparator.antt =====
-- Comparators of `sort`, as the sign of what they return, and chains of them
-- (`const c = …; if (c) return c; …`).
use Prim.Native.Nat.{ℕ, compare, Ordering}
use mathlib.Core.Path.{◌≡◌}
use mathlib.Core.Bool.{Bool, true, false, ◌&&◌, ◌||◌, not}
use mathlib.Core.List.{List}
use native.Mathlib.Omega.{arith}
use jira_execution_planner.Base.Sort.{
  sort_by, SortsTo, sort_by-IsSorted, sort_by-perm, sort_by_stable,
}

-- `compare(a, b) <= 0`
abbrev pub not_above : Ordering → Bool
not_above o = elim o [ Ordering.gt ↦ false | _ ↦ true ]

-- `-c`
abbrev pub reverse : Ordering → Ordering
reverse o = elim o [
  | Ordering.lt ↦ Ordering.gt
  | Ordering.gt ↦ Ordering.lt
  | Ordering.eq ↦ Ordering.eq
]

-- `c || d`
abbrev pub then_by : Ordering → Ordering → Ordering
then_by c d = elim c [ Ordering.lt ↦ Ordering.lt | Ordering.gt ↦ Ordering.gt | Ordering.eq ↦ d ]

abbrev pub Comparator {ℓ} : Type ℓ → Type ℓ
Comparator A = A → A → Ordering

-- What `sort` wants of a comparator: it is antisymmetric and transitive.
pub record IsComparator {ℓ} {A : Type ℓ} (order : Comparator A) : Type ℓ where
  pub swaps : (a b : A) → order b a ≡ reverse (order a b)
  pub carries :
      (a b c : A)
      → not_above (order a b) ≡ true
      → not_above (order b c) ≡ true
      → not_above (order a c) ≡ true

abbrev pub le_of {ℓ} : {A : Type ℓ} → Comparator A → A → A → Bool
le_of order a b = not_above (order a b)

abbrev pub chain {ℓ} : {A : Type ℓ} → Comparator A → Comparator A → Comparator A
chain first second a b = then_by (first a b) (second a b)

pub chain-IsComparator {ℓ} :
    {A : Type ℓ} (first second : Comparator A)
    → IsComparator first
    → IsComparator second
    → IsComparator (chain first second)
chain-IsComparator first second f s = record {
  swaps = λ a b. ground (arith, f.swaps a b, s.swaps a b);
  carries = λ a b c h k. ground (
    arith,
    f.carries a b c,
    f.carries b c a,
    f.carries c a b,
    f.swaps a b,
    f.swaps b c,
    f.swaps a c,
    s.carries a b c,
  );
}

-- `key(a) - key(b)`
pub key-IsComparator {ℓ} :
    {A : Type ℓ} (key : A → ℕ) → IsComparator (λ a b. compare (key a) (key b))
key-IsComparator key = record { swaps = λ a b. ground arith; carries = λ a b c h k. ground arith }

pub on-IsComparator {ℓ κ} :
    {A : Type ℓ} {B : Type κ} (f : A → B) (order : Comparator B)
    → IsComparator order
    → IsComparator (λ a b. order (f a) (f b))
on-IsComparator f order h = record {
  swaps = λ a b. h.swaps (f a) (f b);
  carries = λ a b c. h.carries (f a) (f b) (f c);
}

pub sort-SortsTo {ℓ} :
    {A : Type ℓ} (order : Comparator A)
    → IsComparator order
    → (xs : List A) → SortsTo (le_of order) xs (sort_by (le_of order) xs)
sort-SortsTo order h xs = record {
  in_order = sort_by-IsSorted (le_of order) (λ a b e. ground (arith, h.swaps a b)) h.carries xs;
  complete = sort_by-perm (le_of order) xs;
  stable = λ a. sort_by_stable (le_of order) h.carries a xs;
}

-- First by one order, then by another
abbrev pub first_then {ℓ} : {A : Type ℓ} → (A → A → Bool) → (A → A → Bool) → A → A → Bool
first_then first second a b = first a b && (not (first b a) || second a b)

pub chain-first_then {ℓ} :
    {A : Type ℓ} (first second : Comparator A)
    → IsComparator first
    → (a b : A) → le_of (chain first second) a b ≡ first_then (le_of first) (le_of second) a b
chain-first_then first second f a b = ground (arith, f.swaps a b)
