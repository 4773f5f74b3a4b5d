-- ===== src/Base/Indexed.antt =====
-- `xs.map((x, index) => ({ x, index })).sort((a, b) => compare(a.x, b.x) || a.index - b.index)`,
-- which is the stable sort by `compare`.
use Prim.Native.Nat.{ℕ, suc, ◌<◌, compare}
use mathlib.Core.Path.{◌≡◌, refl, ap, ◌∙◌}
use mathlib.Core.Logic.{inl, inr}
use mathlib.Core.List.{List, [], ◌∷◌, map}
use native.Mathlib.Omega.{arith}
use jira_execution_planner.Base.Tests.{Bool-cases}
use jira_execution_planner.Base.Lists.{All}
use jira_execution_planner.Base.Sort.{insert_sorted, sort_by, sort_by-All}
use jira_execution_planner.Base.Comparator.{Comparator, chain, le_of}

abbrev pub index_from {ℓ} : {A : Type ℓ} → ℕ → List A → List (A × ℕ)
index_from n [] = []
index_from n (x ∷ xs) = (x, n) ∷ index_from (suc n) xs

abbrev by_index {ℓ} : {A : Type ℓ} → Comparator (A × ℕ)
by_index a b = compare a.1 b.1

abbrev indexed_order {ℓ} : {A : Type ℓ} → Comparator A → Comparator (A × ℕ)
indexed_order order = chain (λ a b. order a.0 b.0) by_index

unfoldable pub sort_indexed {ℓ} : {A : Type ℓ} → Comparator A → List A → List A
unfolding sort_by
sort_indexed order xs = map (λ e. e.0) (sort_by (le_of (indexed_order order)) (index_from 0 xs))

module _ {ℓ} {A : Type ℓ} (order : Comparator A) where
  insert-indexed :
      (x : A) (n : ℕ) (es : List (A × ℕ))
      → All (λ e. n < e.1) es
      → map (λ e. e.0) (insert_sorted (le_of (indexed_order order)) (x, n) es)
        ≡ insert_sorted (le_of order) x (map (λ e. e.0) es)
  unfolding insert_sorted
  insert-indexed x n [] h = refl
  insert-indexed x n (e ∷ es) h =
      let same : le_of (indexed_order order) (x, n) e ≡ le_of order x e.0 =
        let below = h.0 in ground arith in
      rw same (elim (Bool-cases (le_of order x e.0)) [
        | inl c ↦ rw c refl
        | inr c ↦ rw c (ap (λ l. e.0 ∷ l) (insert-indexed x n es h.1))
      ])

  index_from-above : (m n : ℕ) (xs : List A) → m < n → All (λ e. m < e.1) (index_from n xs)
  index_from-above m n [] h = tt
  index_from-above m n (x ∷ xs) h = (h, index_from-above m (suc n) xs (omega arith))

  sort-index_from :
      (n : ℕ) (xs : List A)
      → map (λ e. e.0) (sort_by (le_of (indexed_order order)) (index_from n xs))
        ≡ sort_by (le_of order) xs
  unfolding sort_by
  sort-index_from n [] = refl
  sort-index_from n (x ∷ xs) =
      insert-indexed x n _ (
        sort_by-All (le_of (indexed_order order)) (λ e. n < e.1) (index_from (suc n) xs)
          (index_from-above n (suc n) xs (omega arith)))
      ∙ ap (insert_sorted (le_of order) x) (sort-index_from (suc n) xs)

  -- The index keeps elements that tie in their order, as the stable sort does by itself.
  pub sort_indexed_lem : (xs : List A) → sort_indexed order xs ≡ sort_by (le_of order) xs
  unfolding sort_indexed
  sort_indexed_lem xs = sort-index_from 0 xs
