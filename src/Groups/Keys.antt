-- ===== src/Groups/Keys.antt =====
-- Normalised epic keys and ids.
use jira_execution_planner.Base.{
  ◌≡◌, refl, ap, ◌∙◌, true, Option, some, List, [], ◌∷◌, map, Bool-cases, inl, inr, if_cases,
}
use jira_execution_planner.Base.Lists.{
  filter, unique, non_empty, All, Distinct, All-map, All-unique_from, filter-eq_of_All,
  unique-eq_of_Distinct, unique-Distinct,
}
use jira_execution_planner.Base.Text.{Text, text_equality, trim, trimmed, upper, upper_key}
use jira_execution_planner.Base.Upper.{upper_key-fixed}
use jira_execution_planner.Groups.{EpicKeys, many, single, other, normalize_epic_keys, as_keys}

-- What the normalisation makes of a key: trimmed, in upper case, not empty.
pub record IsEpicKey (k : Text) : Type 0 where
  pub fixed : upper (trim k) ≡ k
  pub filled : non_empty k ≡ true

filter-IsEpicKey :
    (values : List (Option Text)) → All IsEpicKey (filter non_empty (map upper_key values))
filter-IsEpicKey [] = tt
filter-IsEpicKey (v ∷ values) = elim (Bool-cases (non_empty (upper_key v))) [
  | inl h ↦ rw h (record { fixed = upper_key-fixed v; filled = h }, filter-IsEpicKey values)
  | inr h ↦ rw h (filter-IsEpicKey values)
]

pub normalize_epic_keys-IsEpicKey : (v : EpicKeys) → All IsEpicKey (normalize_epic_keys v)
unfolding normalize_epic_keys
normalize_epic_keys-IsEpicKey (many values) =
    All-unique_from IsEpicKey [] (filter non_empty (map upper_key values)) (filter-IsEpicKey values)
normalize_epic_keys-IsEpicKey (single value) =
    if_cases (All IsEpicKey) (non_empty (trim value))
      (λ _.
        All-unique_from IsEpicKey [] (filter non_empty (upper_key (some value) ∷ []))
          (filter-IsEpicKey (some value ∷ [])))
      (λ _. tt)
normalize_epic_keys-IsEpicKey other = tt

pub normalize_epic_keys-Distinct : (v : EpicKeys) → Distinct (normalize_epic_keys v)
unfolding normalize_epic_keys
normalize_epic_keys-Distinct (many values) =
    unique-Distinct (filter non_empty (map upper_key values))
normalize_epic_keys-Distinct (single value) =
    if_cases Distinct (non_empty (trim value))
      (λ _. unique-Distinct (filter non_empty (upper_key (some value) ∷ []))) (λ _. tt)
normalize_epic_keys-Distinct other = tt

upper_keys-fixed :
    (keys : List Text) → All IsEpicKey keys → map upper_key (map (λ k. some k) keys) ≡ keys
unfolding upper_key trimmed
upper_keys-fixed [] h = refl
upper_keys-fixed (k ∷ keys) h = rw (h.0.fixed, upper_keys-fixed keys h.1) refl

-- The loop that drops blanks and repetitions keeps normalised keys as they are.
pub unique-filter_of_keys :
    (keys : List Text) → All IsEpicKey keys → Distinct keys → unique (filter non_empty keys) ≡ keys
unique-filter_of_keys keys h d =
    ap unique (filter-eq_of_All non_empty keys (All-map (λ k i. i.filled) keys h))
    ∙ unique-eq_of_Distinct keys d

pub normalize-as_keys :
    (keys : List Text)
    → All IsEpicKey keys
    → Distinct keys
    → normalize_epic_keys (as_keys keys) ≡ keys
unfolding normalize_epic_keys
normalize-as_keys keys h d =
    ap (λ l. unique (filter non_empty l)) (upper_keys-fixed keys h) ∙ unique-filter_of_keys keys h d
