-- ===== src/Base/Sort.antt =====
-- `Array.prototype.sort`: the stable sort by a comparator, as an insertion sort. `le a b` stands
-- for `compare(a, b) <= 0`. A stable sort has one result, whichever way it is computed.
use mathlib.Core.Path.{◌≡◌, refl}
use mathlib.Core.Logic.{inl, inr}
use mathlib.Core.Bool.{Bool, true, false, ◌||◌, ◌&&◌}
use mathlib.Core.List.{List, [], ◌∷◌, Perm}
use mathlib.Core.List.Perm
use native.Mathlib.Omega.{arith}
use jira_execution_planner.Base.Tests.{HasEq, ◌==◌, if◌then◌else◌, Bool-cases}
use jira_execution_planner.Base.Lists.{filter, includes, Distinct, All, All-map}
use jira_execution_planner.Base.Text.{Text, text_le}

module _ {ℓ} {A : Type ℓ} (le : A → A → Bool) where
  unfoldable pub insert_sorted : A → List A → List A
  insert_sorted x [] = x ∷ []
  insert_sorted x (y ∷ ys) =
      let rest = insert_sorted x ys in if le x y then x ∷ y ∷ ys else y ∷ rest

  unfoldable pub sort_by : List A → List A
  unfolding insert_sorted
  sort_by [] = []
  sort_by (x ∷ xs) = insert_sorted x (sort_by xs)

  abbrev pub IsSorted : List A → Type 0
  IsSorted [] = Unit
  IsSorted (x ∷ xs) = All (λ y. le x y ≡ true) xs × IsSorted xs

  -- The elements that compare equal to `a`.
  abbrev pub class_of : A → List A → List A
  class_of a xs = filter (λ y. le a y && le y a) xs

  insert_sorted-perm : (x : A) (xs : List A) → Perm (insert_sorted x xs) (x ∷ xs)
  unfolding insert_sorted
  insert_sorted-perm x [] = Perm.refl (x ∷ [])
  insert_sorted-perm x (y ∷ ys) = elim (Bool-cases (le x y)) [
    | inl h ↦ rw h (Perm.refl (x ∷ y ∷ ys))
    | inr h ↦ rw h (Perm.trans (Perm.cons y (insert_sorted-perm x ys)) (Perm.swap x y ys))
  ]

  pub sort_by-perm : (xs : List A) → Perm (sort_by xs) xs
  unfolding sort_by
  sort_by-perm [] = Perm.refl []
  sort_by-perm (x ∷ xs) =
      Perm.trans (insert_sorted-perm x (sort_by xs)) (Perm.cons x (sort_by-perm xs))

  insert_sorted-All {κ} :
      (P : A → Type κ) (x : A) (xs : List A) → P x → All P xs → All P (insert_sorted x xs)
  unfolding insert_sorted
  insert_sorted-All P x [] h k = (h, tt)
  insert_sorted-All P x (y ∷ ys) h k = elim (Bool-cases (le x y)) [
    | inl e ↦ rw e (h, k)
    | inr e ↦ rw e (k.0, insert_sorted-All P x ys h k.1)
  ]

  pub sort_by-All {κ} : (P : A → Type κ) (xs : List A) → All P xs → All P (sort_by xs)
  unfolding sort_by
  sort_by-All P [] h = tt
  sort_by-All P (x ∷ xs) h = insert_sorted-All P x (sort_by xs) h.0 (sort_by-All P xs h.1)

  module _ (total : (a b : A) → le a b ≡ false → le b a ≡ true)
      (trans : (a b c : A) → le a b ≡ true → le b c ≡ true → le a c ≡ true) where
    insert_sorted-IsSorted : (x : A) (xs : List A) → IsSorted xs → IsSorted (insert_sorted x xs)
    unfolding insert_sorted
    insert_sorted-IsSorted x [] h = (tt, tt)
    insert_sorted-IsSorted x (y ∷ ys) h = elim (Bool-cases (le x y)) [
      | inl e ↦ rw e ((e, All-map (λ z. trans x y z e) ys h.0), h)
      | inr e ↦ rw e (
        insert_sorted-All (λ z. le y z ≡ true) x ys (total x y e) h.0,
        insert_sorted-IsSorted x ys h.1,
      )
    ]

    pub sort_by-IsSorted : (xs : List A) → IsSorted (sort_by xs)
    unfolding sort_by
    sort_by-IsSorted [] = tt
    sort_by-IsSorted (x ∷ xs) = insert_sorted-IsSorted x (sort_by xs) (sort_by-IsSorted xs)

  module _ (trans : (a b c : A) → le a b ≡ true → le b c ≡ true → le a c ≡ true) where
    insert_sorted-class_of :
        (a x : A) (xs : List A) → class_of a (insert_sorted x xs) ≡ class_of a (x ∷ xs)
    unfolding insert_sorted
    insert_sorted-class_of a x [] = refl
    insert_sorted-class_of a x (y ∷ ys) = ground (arith, insert_sorted-class_of a x ys, trans x a y)

    -- Elements that compare equal keep their order.
    pub sort_by_stable : (a : A) (xs : List A) → class_of a (sort_by xs) ≡ class_of a xs
    unfolding sort_by
    sort_by_stable a [] = refl
    sort_by_stable a (x ∷ xs) =
        ground (arith, insert_sorted-class_of a x (sort_by xs), sort_by_stable a xs)

-- In order by `le`, a permutation of the input, and stable.
pub record SortsTo {ℓ} {A : Type ℓ} (le : A → A → Bool) (input output : List A) : Type ℓ where
  pub in_order : IsSorted le output
  pub complete : Perm output input
  pub stable : (a : A) → class_of le a output ≡ class_of le a input

module _ {ℓ} {A : Type ℓ} ⦃e : HasEq A⦄ (le : A → A → Bool) where
  includes-insert_sorted :
      (a x : A) (xs : List A) → includes a (insert_sorted le x xs) ≡ (x == a || includes a xs)
  unfolding insert_sorted
  includes-insert_sorted a x [] = refl
  includes-insert_sorted a x (y ∷ ys) = ground (arith, includes-insert_sorted a x ys)

  pub includes-sort_by : (a : A) (xs : List A) → includes a (sort_by le xs) ≡ includes a xs
  unfolding sort_by
  includes-sort_by a [] = refl
  includes-sort_by a (x ∷ xs) =
      ground (arith, includes-insert_sorted a x (sort_by le xs), includes-sort_by a xs)

  insert_sorted-Distinct :
      (x : A) (xs : List A) → includes x xs ≡ false → Distinct xs → Distinct (insert_sorted le x xs)
  unfolding insert_sorted
  insert_sorted-Distinct x [] h d = (refl, tt)
  insert_sorted-Distinct x (y ∷ ys) h d = elim (Bool-cases (le x y)) [
    | inl k ↦ rw k (h, d)
    | inr k ↦ rw k (
      ground (arith, includes-insert_sorted y x ys, d.0, e.same_iff x y, e.same_iff y x),
      insert_sorted-Distinct x ys (ground arith) d.1,
    )
  ]

  pub sort_by-Distinct : (xs : List A) → Distinct xs → Distinct (sort_by le xs)
  unfolding sort_by
  sort_by-Distinct [] d = tt
  sort_by-Distinct (x ∷ xs) d =
      insert_sorted-Distinct x (sort_by le xs) (ground (arith, includes-sort_by x xs, d.0))
        (sort_by-Distinct xs d.1)

pub text_le_total : (s t : Text) → text_le s t ≡ false → text_le t s ≡ true
unfolding text_le
text_le_total [] t h = absurd (ground arith)
text_le_total (c ∷ s) [] h = refl
text_le_total (c ∷ s) (d ∷ t) h = ground (arith, text_le_total s t)

pub text_le_trans : (s t u : Text) → text_le s t ≡ true → text_le t u ≡ true → text_le s u ≡ true
unfolding text_le
text_le_trans [] t u h k = refl
text_le_trans (c ∷ s) [] u h k = absurd (ground arith)
text_le_trans (c ∷ s) (d ∷ t) [] h k = absurd (ground arith)
text_le_trans (c ∷ s) (d ∷ t) (f ∷ u) h k = ground (arith, text_le_trans s t u)

-- `xs.sort()` of strings
unfoldable pub sort : List Text → List Text
unfolding sort_by
sort xs = sort_by text_le xs

pub sort-IsSorted : (xs : List Text) → IsSorted text_le (sort xs)
unfolding sort
sort-IsSorted xs = sort_by-IsSorted text_le text_le_total text_le_trans xs
