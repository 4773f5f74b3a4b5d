-- ===== src/Base/Dict.antt =====
-- JavaScript objects and `Map`s with string keys, as association lists in insertion order.
-- (An object lists keys that read as array indices first; the keys of this code are issue keys,
-- team ids and scope keys, and where the order shows the code sorts or the list is documented.)
use jira_execution_planner.Base.Tests.{if◌then◌else◌, Bool-cases}
use jira_execution_planner.Base.Lists.{includes, Distinct}
use jira_execution_planner.Base.Text.{Text, text_beq, text_beq_iff, text_equality}
use mathlib.Core.Path.{◌≡◌, refl, subst}
use mathlib.Core.Logic.{inl, inr}
use mathlib.Core.Bool.{Bool, true, false, ◌||◌, not, ◌&&◌}
use mathlib.Core.Option.{Option, none, some}
use mathlib.Core.List.{List, [], ◌∷◌}
use native.Mathlib.Omega.{arith}

abbrev pub is_there {ℓ} : {V : Type ℓ} → Option V → Bool
is_there none = false
is_there (some v) = true

abbrev pub Dict {ℓ} : Type ℓ → Type ℓ
Dict V = List (Text × V)

module _ {ℓ} {V : Type ℓ} where
  -- `d[k]`, `undefined` where the key is missing
  unfoldable pub lookup : Text → Dict V → Option V
  lookup k [] = none
  lookup k ((j, v) ∷ d) = if text_beq j k then some v else lookup k d

  -- `d[k] = v`
  unfoldable pub insert : Text → V → Dict V → Dict V
  insert k v [] = (k, v) ∷ []
  insert k v ((j, w) ∷ d) =
      let rest = insert k v d in if text_beq j k then (k, v) ∷ d else (j, w) ∷ rest

  -- `delete d[k]`
  unfoldable pub remove : Text → Dict V → Dict V
  remove k [] = []
  remove k ((j, w) ∷ d) = let rest = remove k d in if text_beq j k then rest else (j, w) ∷ rest

  -- `Object.keys(d)`
  unfoldable pub keys : Dict V → List Text
  keys [] = []
  keys ((j, w) ∷ d) = j ∷ keys d

  pub lookup-insert :
      (k j : Text) (v : V) (d : Dict V)
      → lookup j (insert k v d) ≡ (if text_beq k j then some v else lookup j d)
  unfolding lookup insert
  lookup-insert k j v [] = refl
  lookup-insert k j v ((i, w) ∷ d) =
      ground (arith, text_beq_iff k j, text_beq_iff i k, text_beq_iff i j, lookup-insert k j v d)

  pub lookup-remove :
      (k j : Text) (d : Dict V)
      → lookup j (remove k d) ≡ (if text_beq k j then none else lookup j d)
  unfolding lookup remove
  lookup-remove k j [] = ground arith
  lookup-remove k j ((i, w) ∷ d) =
      ground (arith, text_beq_iff k j, text_beq_iff i k, text_beq_iff i j, lookup-remove k j d)

  pub lookup-insert_self : (k : Text) (v : V) (d : Dict V) → lookup k (insert k v d) ≡ some v
  lookup-insert_self k v d = ground (arith, lookup-insert k k v d, text_beq_iff k k)

  pub includes-keys : (k : Text) (d : Dict V) → includes k (keys d) ≡ is_there (lookup k d)
  unfolding keys lookup
  includes-keys k [] = refl
  includes-keys k ((j, w) ∷ d) = ground (arith, includes-keys k d)

  includes-keys-insert :
      (a k : Text) (v : V) (d : Dict V)
      → includes a (keys (insert k v d)) ≡ (text_beq k a || includes a (keys d))
  includes-keys-insert a k v d =
      ground (arith, includes-keys a d, includes-keys a (insert k v d), lookup-insert k a v d)

  pub insert-Distinct :
      (k : Text) (v : V) (d : Dict V) → Distinct (keys d) → Distinct (keys (insert k v d))
  unfolding keys insert
  insert-Distinct k v [] h = (refl, tt)
  insert-Distinct k v ((j, w) ∷ d) h = elim (Bool-cases (text_beq j k)) [
    | inl e ↦ rw e (subst (λ x. includes x (keys d) ≡ false) ((text_beq_iff j k).0 e) h.0, h.1)
    | inr e ↦ rw e (
      ground (arith, includes-keys-insert j k v d, text_beq_iff k j, text_beq_iff j k, h.0),
      insert-Distinct k v d h.1,
    )
  ]

  includes-keys-remove :
      (a k : Text) (d : Dict V)
      → includes a (keys (remove k d)) ≡ (not (text_beq k a) && includes a (keys d))
  includes-keys-remove a k d =
      ground (arith, includes-keys a d, includes-keys a (remove k d), lookup-remove k a d)

  pub remove-Distinct : (k : Text) (d : Dict V) → Distinct (keys d) → Distinct (keys (remove k d))
  unfolding keys remove
  remove-Distinct k [] h = tt
  remove-Distinct k ((j, w) ∷ d) h = elim (Bool-cases (text_beq j k)) [
    | inl e ↦ rw e (remove-Distinct k d h.1)
    | inr e ↦ rw e (ground (arith, includes-keys-remove j k d, h.0), remove-Distinct k d h.1)
  ]

pub ruleset dict_laws = (lookup-insert, lookup-remove)
