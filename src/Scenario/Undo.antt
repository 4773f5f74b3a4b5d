-- ===== src/Scenario/Undo.antt =====
-- `createUndoStack` of frontend/src/scenario/scenarioUtils.js. The two arrays are lists with the
-- last element first. A command is a value of the type `C`.
use jira_execution_planner.Base.{
  ℕ, zero, suc, ◌+◌, ◌-◌, ◌≡◌, refl, sym, ap, ◌∙◌, Bool, Option, none, some, List, [], ◌∷◌, ◌++◌,
  ltb, if◌then◌else◌, arith,
}
use jira_execution_planner.Base.Lists.{length}

pub record UndoStack {ℓ} (C : Type ℓ) : Type ℓ where
  pub undo_list : List C
  pub redo_list : List C

-- The calls of the methods that change the stack.
pub data StackCall {ℓ} (C : Type ℓ) : Type ℓ where
  push : C → StackCall C
  undo redo clear : StackCall C

module _ {ℓ} {C : Type ℓ} where
  abbrev pub create_undo_stack : UndoStack C
  create_undo_stack = record { undo_list = []; redo_list = [] }

  unfoldable pub push_command : C → UndoStack C → UndoStack C
  push_command cmd s = record { undo_list = cmd ∷ s.undo_list; redo_list = [] }

  -- The command that the method returns, `null` where there is none, and the stack after it
  unfoldable pub undo_command : UndoStack C → Option C × UndoStack C
  undo_command s = elim s.undo_list [
    | [] ↦ (none, s)
    | cmd ∷ older ↦ (some cmd, record { undo_list = older; redo_list = cmd ∷ s.redo_list })
  ]

  unfoldable pub redo_command : UndoStack C → Option C × UndoStack C
  redo_command s = elim s.redo_list [
    | [] ↦ (none, s)
    | cmd ∷ newer ↦ (some cmd, record { undo_list = cmd ∷ s.undo_list; redo_list = newer })
  ]

  unfoldable pub can_undo : UndoStack C → Bool
  can_undo s = ltb 0 (length s.undo_list)

  unfoldable pub can_redo : UndoStack C → Bool
  can_redo s = ltb 0 (length s.redo_list)

  -- A call, with what it returns.
  unfoldable pub call : StackCall C → UndoStack C → Option C × UndoStack C
  call (push cmd) s = (none, push_command cmd s)
  call undo s = undo_command s
  call redo s = redo_command s
  call clear s = (none, create_undo_stack)

  unfoldable pub call_all : List (StackCall C) → UndoStack C → List (Option C) × UndoStack C
  call_all [] s = ([], s)
  call_all (c ∷ calls) s =
      let (returned, next) = call c s in
      let (others, last) = call_all calls next in (returned ∷ others, last)

-- What the stack promises: a history of commands, the oldest first, and a position in it.
pub record History {ℓ} (C : Type ℓ) : Type ℓ where
  pub commands : List C
  pub position : ℕ

module _ {ℓ} {C : Type ℓ} where
  abbrev pub take : ℕ → List C → List C
  take zero xs = []
  take (suc n) [] = []
  take (suc n) (x ∷ xs) = x ∷ take n xs

  abbrev pub at : ℕ → List C → Option C
  at n [] = none
  at zero (x ∷ xs) = some x
  at (suc n) (x ∷ xs) = at n xs

  -- A new command replaces what lies after the position; undo and redo move the position.
  abbrev pub step : StackCall C → History C → Option C × History C
  step (push cmd) h = (
    none,
    record { commands = take h.position h.commands ++ cmd ∷ []; position = suc h.position },
  )
  step undo h =
      if ltb 0 h.position
      then (at (h.position - 1) h.commands, record h { position = h.position - 1 })
      else (none, h)
  step redo h =
      if ltb h.position (length h.commands)
      then (at h.position h.commands, record h { position = suc h.position })
      else (none, h)
  step clear h = (none, record { commands = []; position = 0 })

  abbrev pub step_all : List (StackCall C) → History C → List (Option C) × History C
  step_all [] h = ([], h)
  step_all (c ∷ calls) h =
      let (returned, next) = step c h in
      let (others, last) = step_all calls next in (returned ∷ others, last)

  -- `reverse xs ++ ys`
  abbrev pub onto : List C → List C → List C
  onto [] ys = ys
  onto (x ∷ xs) ys = onto xs (x ∷ ys)

  abbrev pub history_of : UndoStack C → History C
  history_of s = record { commands = onto s.undo_list s.redo_list; position = length s.undo_list }

  take-onto : (m : ℕ) (xs ys : List C) → take (length xs + m) (onto xs ys) ≡ onto xs (take m ys)
  take-onto m [] ys = ap (λ n. take n ys) (omega arith)
  take-onto m (x ∷ xs) ys =
      ap (λ n. take n (onto xs (x ∷ ys))) (omega arith) ∙ take-onto (suc m) xs (x ∷ ys)

  onto-append : (xs ys zs : List C) → onto xs ys ++ zs ≡ onto xs (ys ++ zs)
  onto-append [] ys zs = refl
  onto-append (x ∷ xs) ys zs = onto-append xs (x ∷ ys) zs

  at-onto : (m : ℕ) (xs ys : List C) → at (length xs + m) (onto xs ys) ≡ at m ys
  at-onto m [] ys = ap (λ n. at n ys) (omega arith)
  at-onto m (x ∷ xs) ys =
      ap (λ n. at n (onto xs (x ∷ ys))) (omega arith) ∙ at-onto (suc m) xs (x ∷ ys)

  length-onto : (xs ys : List C) → length (onto xs ys) ≡ length xs + length ys
  length-onto [] ys = omega arith
  length-onto (x ∷ xs) ys = length-onto xs (x ∷ ys) ∙ omega arith

  call-step :
      (c : StackCall C) (u r : List C)
      → let s : UndoStack C = record { undo_list = u; redo_list = r } in
        ((call c s).0, history_of (call c s).1) ≡ step c (history_of s)
  unfolding call push_command undo_command redo_command
  call-step (push cmd) u r =
      let e : take (length u) (onto u r) ++ cmd ∷ [] ≡ onto u (cmd ∷ []) =
        ap (λ n. take n (onto u r) ++ cmd ∷ []) (omega arith)
        ∙ ap (λ l. l ++ cmd ∷ []) (take-onto 0 u r)
        ∙ onto-append u [] (cmd ∷ []) in
      ap (λ l. (none, record { commands = l; position = suc (length u) })) (sym e)
  call-step undo [] r = ground arith
  call-step undo (x ∷ u) r = ground (arith, at-onto 0 u (x ∷ r))
  call-step redo u [] = ground (arith, length-onto u [])
  call-step redo u (x ∷ r) = ground (arith, length-onto u (x ∷ r), at-onto 0 u (x ∷ r))
  call-step clear u r = refl

  -- Any sequence of calls returns what the history returns, and leaves its commands and position.
  pub call_all-step_all :
      (calls : List (StackCall C)) (s : UndoStack C)
      → ((call_all calls s).0, history_of (call_all calls s).1) ≡ step_all calls (history_of s)
  unfolding call_all
  call_all-step_all [] s = refl
  call_all-step_all (c ∷ calls) s =
      ap (λ q. ((call c s).0 ∷ q.0, q.1)) (call_all-step_all calls (call c s).1)
      ∙ ap (λ p. (p.0 ∷ (step_all calls p.1).0, (step_all calls p.1).1))
          (call-step c s.undo_list s.redo_list)
