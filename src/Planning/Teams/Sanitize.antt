-- ===== src/Planning/Teams/Sanitize.antt =====
-- What the sanitized selection holds.
use jira_execution_planner.Base.{
  ◌≡◌, refl, ap, ◌∙◌, subst, true, false, ◌||◌, not, Option, List, [], ◌∷◌, inl, inr, arith,
  Bool-cases, if◌then◌else◌, ◌↔◌,
}
use jira_execution_planner.Base.Lists.{
  filter, includes, non_empty, filter-All, filter_idem, includes-filter, filter-eq_of_All,
  All-filter,
}
use jira_execution_planner.Base.Text.{Text, text_equality, text_beq_iff}
use jira_execution_planner.Planning.Teams.{
  TeamsValue, many, all_id, all_only, normalize_selected_teams, id_set,
  sanitize_selected_teams_for_scope, ids_equal, selected_team_selections_equal,
}

pub ids_equal_sound : (xs ys : List Text) → ids_equal xs ys ≡ true → xs ≡ ys
unfolding ids_equal
ids_equal_sound [] [] h = refl
ids_equal_sound [] (y ∷ ys) h = cc
ids_equal_sound (x ∷ xs) [] h = cc
ids_equal_sound (x ∷ xs) (y ∷ ys) h = ground (arith, text_beq_iff x y, ids_equal_sound xs ys)

pub ids_equal_refl : (xs : List Text) → ids_equal xs xs ≡ true
unfolding ids_equal
ids_equal_refl [] = refl
ids_equal_refl (x ∷ xs) = ground (arith, text_beq_iff x x, ids_equal_refl xs)

ids_equal_iff : (xs ys : List Text) → (ids_equal xs ys ≡ true) ↔ (xs ≡ ys)
ids_equal_iff xs ys =
    (ids_equal_sound xs ys, λ p. subst (λ l. ids_equal xs l ≡ true) p (ids_equal_refl xs))

filter-none {ℓ} : {A : Type ℓ} (xs : List A) → filter (λ _. false) xs ≡ []
filter-none [] = refl
filter-none (x ∷ xs) = filter-none xs

abbrev within : List Text → List Text → List Text
within set ids = filter (λ id. includes id set) ids

-- The guards of the code on the empty sets are needless: they only anticipate an empty result.
guards_lem :
    (n g a : List Text)
    → (if not (non_empty g)
        then all_only
        else if includes all_id n
        then all_only
        else if not (non_empty (within g n))
        then all_only
        else if not (non_empty a)
        then all_only
        else if non_empty (within a (within g n))
        then within a (within g n)
        else all_only)
      ≡ (if includes all_id n || not (non_empty (within a (within g n)))
          then all_only
          else within a (within g n))
guards_lem n [] a = ground (arith, filter-none n, filter-none {A = Text} [])
guards_lem n (x ∷ g) [] = ground (arith, filter-none (within (x ∷ g) n))
guards_lem n (x ∷ g) (y ∷ a) = elim (Bool-cases (non_empty (within (x ∷ g) n))) [
  | inl some_left ↦ ground (arith, some_left)
  | inr none_left ↦ ground (arith, none_left)
]

module _ (selected : TeamsValue) (group available : List (Option Text)) where
  -- The ids of the selection that both the group and the sprint have.
  abbrev pub in_scope : List Text
  in_scope = within (id_set available) (within (id_set group) (normalize_selected_teams selected))

  -- The result is the part of the selection in scope, in its order; and `all`, if that part is
  -- empty or the selection names `all`.
  pub sanitize_selected_teams_for_scope_lem :
      sanitize_selected_teams_for_scope selected group available ≡ (
        if includes all_id (normalize_selected_teams selected) || not (non_empty in_scope)
        then all_only
        else in_scope)
  unfolding sanitize_selected_teams_for_scope
  sanitize_selected_teams_for_scope_lem =
      guards_lem (normalize_selected_teams selected) (id_set group) (id_set available)

within_fixed :
    (g a n : List Text) → within a (within g (within a (within g n))) ≡ within a (within g n)
within_fixed g a n =
    ap (within a) (
      filter-eq_of_All (λ id. includes id g) (within a (within g n))
        (All-filter (λ id. includes id g ≡ true) (λ id. includes id a) (within g n)
          (filter-All (λ id. includes id g) n)))
    ∙ filter_idem (λ id. includes id a) (within g n)

normalize-many :
    (ids : List Text) → non_empty ids ≡ true → normalize_selected_teams (many ids) ≡ ids
unfolding normalize_selected_teams
normalize-many ids h = rw h

module _ (group available : List (Option Text)) where
  sanitize_all_only : sanitize_selected_teams_for_scope (many all_only) group available ≡ all_only
  unfolding normalize_selected_teams
  sanitize_all_only = ground (
    arith,
    sanitize_selected_teams_for_scope_lem (many all_only) group available,
    text_beq_iff all_id all_id,
  )

  -- A part of a selection in scope is kept as it is.
  sanitize_in_scope :
      (selected : TeamsValue)
      → includes all_id (normalize_selected_teams selected) ≡ false
      → non_empty (in_scope selected group available) ≡ true
      → sanitize_selected_teams_for_scope (many (in_scope selected group available)) group available
        ≡ in_scope selected group available
  sanitize_in_scope selected no_all some_left =
      let n = normalize_selected_teams selected in
      let l = in_scope selected group available in
      let g = id_set group in
      let a = id_set available in
      ground (
        arith,
        sanitize_selected_teams_for_scope_lem (many l) group available,
        normalize-many l some_left,
        within_fixed g a n,
        includes-filter (λ id. includes id a) all_id (within g n),
        includes-filter (λ id. includes id g) all_id n,
      )

  -- Sanitizing again, in the same scope, changes nothing.
  pub sanitize_selected_teams_for_scope_idem :
      (selected : TeamsValue)
      → sanitize_selected_teams_for_scope
          (many (sanitize_selected_teams_for_scope selected group available))
          group
          available
        ≡ sanitize_selected_teams_for_scope selected group available
  sanitize_selected_teams_for_scope_idem selected =
      let cut = sanitize_selected_teams_for_scope_lem selected group available in
      elim (Bool-cases (
        includes all_id (normalize_selected_teams selected)
        || not (non_empty (in_scope selected group available)))) [
          | inl whole ↦ rw (cut, whole) sanitize_all_only
          | inr part ↦ rw (cut, part) (sanitize_in_scope selected (ground arith) (ground arith))
        ]

-- `selectedTeamSelectionsEqual` compares the normalised selections, position by position.
pub selected_team_selections_equal_iff :
    (left right : TeamsValue)
    → (selected_team_selections_equal left right ≡ true)
      ↔ (normalize_selected_teams left ≡ normalize_selected_teams right)
unfolding selected_team_selections_equal
selected_team_selections_equal_iff left right =
    ids_equal_iff (normalize_selected_teams left) (normalize_selected_teams right)
