-- ===== src/Base/Text.antt =====
-- JavaScript strings: lists of UTF-16 code units, with `===`, `trim`, `toUpperCase`,
-- `toLowerCase` and the order of `sort()`. Upper and lower case are those of the ASCII letters.
use Prim.Native.Nat.{ℕ, zero, suc, ◌+◌, ◌-◌, ◌/◌, ◌%◌}
use Prim.Native.Char.{code}
use Prim.Native.String.{String}
use mathlib.Core.Path.{◌≡◌, refl, subst}
use mathlib.Core.Logic.{◌↔◌, inl, inr}
use mathlib.Core.Bool.{Bool, true, false, ◌&&◌, ◌||◌, not}
use mathlib.Core.Option.{Option, none, some}
use mathlib.Core.List.{List, [], ◌∷◌, ◌++◌, map}
use native.Mathlib.Omega.{arith}
use jira_execution_planner.Base.Tests.{HasEq, nat_beq, if◌then◌else◌, Bool-cases, ltb, leb}
use jira_execution_planner.Base.Lists.{non_empty}

abbrev pub Text : Type 0
Text = List ℕ

-- A literal. All literals of the code stand in the basic plane.
abbrev pub text : String → Text
text String.[] = []
text (String.◌∷◌ c s) = code c ∷ text s

unfoldable pub text_beq : Text → Text → Bool
text_beq [] [] = true
text_beq [] (d ∷ t) = false
text_beq (c ∷ s) [] = false
text_beq (c ∷ s) (d ∷ t) = nat_beq c d && text_beq s t

text_beq_sound : (s t : Text) → text_beq s t ≡ true → s ≡ t
unfolding text_beq
text_beq_sound [] [] h = refl
text_beq_sound [] (d ∷ t) h = cc
text_beq_sound (c ∷ s) [] h = cc
text_beq_sound (c ∷ s) (d ∷ t) h = ground (arith, text_beq_sound s t)

text_beq_refl : (s : Text) → text_beq s s ≡ true
unfolding text_beq
text_beq_refl [] = refl
text_beq_refl (c ∷ s) = ground (arith, text_beq_refl s)

pub text_beq_iff : (s t : Text) → (text_beq s t ≡ true) ↔ (s ≡ t)
text_beq_iff s t = (text_beq_sound s t, λ p. subst (λ u. text_beq s u ≡ true) p (text_beq_refl s))

instance abbrev pub text_equality : HasEq Text
text_equality = record { same = text_beq; same_iff = text_beq_iff }

-- WhiteSpace and LineTerminator of ECMAScript: what `trim` removes.
unfoldable pub is_space : ℕ → Bool
is_space c =
    (leb 9 c && leb c 13)
    || nat_beq c 32
    || nat_beq c 160
    || nat_beq c 0x1680
    || (leb 0x2000 c && leb c 0x200a)
    || nat_beq c 0x2028
    || nat_beq c 0x2029
    || nat_beq c 0x202f
    || nat_beq c 0x205f
    || nat_beq c 0x3000
    || nat_beq c 0xfeff

unfoldable pub trim_start : Text → Text
trim_start [] = []
trim_start (c ∷ s) = let rest = trim_start s in if is_space c then rest else c ∷ s

unfoldable pub trim_end : Text → Text
trim_end [] = []
trim_end (c ∷ s) =
    let rest = trim_end s in if is_space c && not (non_empty rest) then [] else c ∷ rest

-- `s.trim()`
unfoldable pub trim : Text → Text
unfolding is_space trim_start trim_end
trim s = trim_end (trim_start s)

unfoldable pub upper_unit : ℕ → ℕ
upper_unit c = if leb 97 c && leb c 122 then c - 32 else c

unfoldable pub lower_unit : ℕ → ℕ
lower_unit c = if leb 65 c && leb c 90 then c + 32 else c

-- `s.toUpperCase()`
unfoldable pub upper : Text → Text
unfolding upper_unit
upper s = map upper_unit s

-- `s.toLowerCase()`
unfoldable pub lower : Text → Text
unfolding lower_unit
lower s = map lower_unit s

-- `a <= b` on strings, by code units
unfoldable pub text_le : Text → Text → Bool
text_le [] t = true
text_le (c ∷ s) [] = false
text_le (c ∷ s) (d ∷ t) = ltb c d || (nat_beq c d && text_le s t)

-- `String(value || '')` of a string, `null` or `undefined`
abbrev pub or_empty : Option Text → Text
or_empty none = []
or_empty (some s) = s

trim_end_idem : (s : Text) → trim_end (trim_end s) ≡ trim_end s
unfolding trim_end
trim_end_idem [] = refl
trim_end_idem (c ∷ s) = elim (Bool-cases (is_space c && not (non_empty (trim_end s)))) [
  | inl h ↦ rw h
  | inr h ↦ rw h (rw (trim_end_idem s) (rw h))
]

-- `s` does not begin with white space.
abbrev NoLead : Text → Type 0
NoLead [] = Unit
NoLead (c ∷ s) = is_space c ≡ false

trim_start-NoLead : (s : Text) → NoLead (trim_start s)
unfolding trim_start
trim_start-NoLead [] = tt
trim_start-NoLead (c ∷ s) = elim (Bool-cases (is_space c)) [
  | inl h ↦ rw h (trim_start-NoLead s)
  | inr h ↦ rw h h
]

trim_end-NoLead : (s : Text) → NoLead s → NoLead (trim_end s)
unfolding trim_end
trim_end-NoLead [] h = tt
trim_end-NoLead (c ∷ s) h = rw h h

trim_start_of_NoLead : (s : Text) → NoLead s → trim_start s ≡ s
unfolding trim_start
trim_start_of_NoLead [] h = refl
trim_start_of_NoLead (c ∷ s) h = rw h

pub trim_idem : (s : Text) → trim (trim s) ≡ trim s
trim_idem s =
    let lead = trim_end-NoLead (trim_start s) (trim_start-NoLead s) in
    unfold trim in
    rw (trim_start_of_NoLead (trim_end (trim_start s)) lead) (trim_end_idem (trim_start s))

pub upper_idem : (s : Text) → upper (upper s) ≡ upper s
unfolding upper
upper_idem [] = refl
upper_idem (c ∷ s) = ground (arith, upper_idem s)

pub lower_idem : (s : Text) → lower (lower s) ≡ lower s
unfolding lower
lower_idem [] = refl
lower_idem (c ∷ s) = ground (arith, lower_idem s)

-- `String(value || '').trim()`
unfoldable pub trimmed : Option Text → Text
trimmed v = trim (or_empty v)

-- `String(value || '').trim().toUpperCase()`
unfoldable pub upper_key : Option Text → Text
upper_key v = upper (trimmed v)

unfoldable pub digits : ℕ → ℕ → Text
digits zero n = []
digits (suc fuel) n =
    let rest = digits fuel (n / 10) in
    if ltb n 10 then (48 + n) ∷ [] else rest ++ (48 + n % 10) ∷ []

-- `${n}` of a natural number, which has at most `n + 1` digits
unfoldable pub decimal : ℕ → Text
decimal n = digits (suc n) n

-- `texts.join(separator)`
unfoldable pub join : Text → List Text → Text
join separator [] = []
join separator (t ∷ texts) =
    let rest = join separator texts in if non_empty texts then t ++ separator ++ rest else t
