-- ===== src/Prelude/Text.antt =====
-- Byte strings: `std::string` and `std::string_view` as lists of codes, and what the program uses
-- of their interface.
use Prim.Native.Nat.{ℕ, zero, suc, ◌+◌, ◌-◌, ◌*◌, ◌/◌, ◌%◌, ◌<◌}
use Prim.Native.Char.{code}
use Prim.Native.String.{String}
use mathlib.Core.Path.{◌≡◌, refl, ap, ◌∙◌}
use mathlib.Core.Bool.{Bool, true, false}
use mathlib.Core.Logic.{inl, inr}
use mathlib.Core.Option.{Option, none, some}
use mathlib.Core.List.{List, [], ◌∷◌, ◌++◌}
use native.Mathlib.Omega.{arith}
use obmc_yadro_webapp.Prelude.Tests.{◌==◌, if◌then◌else◌, ltb, nat_eq, Bool-cases, Option-cases}
use obmc_yadro_webapp.Prelude.Lists.{length, drop}

abbrev pub Text : Type 0
Text = List ℕ

-- A text literal.
abbrev pub text : String → Text
text String.[] = []
text (String.◌∷◌ c s) = code c ∷ text s

abbrev pub is_empty {ℓ} : {A : Type ℓ} → List A → Bool
is_empty [] = true
is_empty (x ∷ xs) = false

-- `s.starts_with(prefix)`, prefix first.
unfoldable pub starts_with : Text → Text → Bool
starts_with [] s = true
starts_with (p ∷ prefix) [] = false
starts_with (p ∷ prefix) (c ∷ s) = if p == c then starts_with prefix s else false

-- `s.find(c)` split at its position: the text before the first `c` and the text behind it.
unfoldable pub split_first : ℕ → Text → Option (Text × Text)
split_first c [] = none
split_first c (x ∷ s) =
    let rest = split_first c s in
    if x == c
    then some ([], s)
    else elim rest [ none ↦ none | some (before, after) ↦ some (x ∷ before, after) ]

-- The text behind the last `c`, as `s.substr(s.rfind(c) + 1)`.
unfoldable pub after_last : ℕ → Text → Option Text
after_last c [] = none
after_last c (x ∷ s) = elim (after_last c s) [
  | some t ↦ some t
  | none ↦ if x == c then some s else none
]

-- Every `c` replaced by `d`, as `std::replace`.
unfoldable pub replace : ℕ → ℕ → Text → Text
replace c d [] = []
replace c d (x ∷ s) = (if x == c then d else x) ∷ replace c d s

-- `std::to_string` of a number, on fuel that is more than the number.
digits_fuel : ℕ → ℕ → Text → Text
digits_fuel zero n acc = acc
digits_fuel (suc f) n acc =
    let rest = digits_fuel f (n / 10) ((48 + n % 10) ∷ acc) in
    if ltb n 10 then (48 + n) ∷ acc else rest

unfoldable pub to_string : ℕ → Text
unfolding digits_fuel
to_string n = digits_fuel (suc n) n []

-- The number that a decimal text stands for.
abbrev pub of_digits : ℕ → Text → ℕ
of_digits acc [] = acc
of_digits acc (d ∷ s) = of_digits (acc * 10 + (d - 48)) s

of_digits-digits_fuel :
    (fuel n : ℕ) (acc : Text) → n < fuel → of_digits 0 (digits_fuel fuel n acc) ≡ of_digits n acc
unfolding digits_fuel
of_digits-digits_fuel zero n acc h = absurd (omega arith)
of_digits-digits_fuel (suc fuel) n acc h = elim (Bool-cases (ltb n 10)) [
  | inl digit ↦ rw digit (ap (λ k. of_digits k acc) (omega arith))
  | inr more ↦ rw more (
      of_digits-digits_fuel fuel (n / 10) ((48 + n % 10) ∷ acc) (ground arith)
      ∙ ap (λ k. of_digits k acc) (omega arith))
]

-- A number that is written is read back.
pub of_digits-to_string : (n : ℕ) → of_digits 0 (to_string n) ≡ n
unfolding to_string
of_digits-to_string n = of_digits-digits_fuel (suc n) n [] (omega arith)

-- Splitting at the first separator and joining again gives the text back.
pub split_first-append :
    (c : ℕ) (s before after : Text)
    → split_first c s ≡ some (before, after)
    → s ≡ before ++ c ∷ after
unfolding split_first
split_first-append c [] before after e = cc
split_first-append c (x ∷ s) before after e = elim (Bool-cases (x == c)) [
  | inl same ↦ ground arith
  | inr other ↦ elim (Option-cases (split_first c s)) [
    | inl missed ↦ cc
    | inr ((b, a), found) ↦ ground (arith, split_first-append c s b a found)
  ]
]

pub starts_with-drop :
    (prefix s : Text) → starts_with prefix s ≡ true → s ≡ prefix ++ drop (length prefix) s
unfolding starts_with
starts_with-drop [] s h = refl
starts_with-drop (p ∷ prefix) [] h = cc
starts_with-drop (p ∷ prefix) (c ∷ s) h = ground (arith, starts_with-drop prefix s)
