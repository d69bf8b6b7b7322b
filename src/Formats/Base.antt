-- ===== src/Formats/Base.antt =====
-- How a D-Bus value is looked up in a dictionary (src/formatters.hpp).
use obmc_yadro_webapp.Prelude.{
  ℕ, ◌≡◌, ◌↔◌, Bool, true, false, Option, none, some, List, Eq, lookup, arith,
}
use obmc_yadro_webapp.Prelude.Int.{pos}
use obmc_yadro_webapp.Prelude.Text.{Text}
use obmc_yadro_webapp.Entity.{FieldType, string, uint8, int32, bool_beq}

pub bool_beq_iff : (a b : Bool) → (bool_beq a b ≡ true) ↔ (a ≡ b)
unfolding bool_beq
bool_beq_iff true true = ground arith
bool_beq_iff true false = ground arith
bool_beq_iff false true = ground arith
bool_beq_iff false false = ground arith

instance abbrev pub bool_eq : Eq Bool
bool_eq = record { eqb = bool_beq; eqb_iff = bool_beq_iff }

-- The raw types of the dictionaries' keys.
unfoldable pub raw_string : FieldType → Option Text
raw_string (string s) = some s
raw_string value = none

unfoldable pub raw_bool : FieldType → Option Bool
raw_bool (FieldType.boolean b) = some b
raw_bool value = none

unfoldable pub raw_byte : FieldType → Option ℕ
raw_byte (uint8 n) = some n
raw_byte value = none

-- The enumerator as an integer; `none` is the exception for a value of another type.
unfoldable pub format_value_from_dict :
    {K E : Type 0} ⦃e : Eq K⦄
    → (FieldType → Option K)
    → (E → ℕ)
    → List (K × E)
    → E
    → FieldType
    → Option FieldType
unfolding lookup
format_value_from_dict raw to_int dict default_value value = elim (raw value) [
  | none ↦ none
  | some property ↦
      some
        (int32 (pos (to_int (elim (lookup property dict) [ none ↦ default_value | some v ↦ v ]))))
]
