-- ===== src/Formats/Values.antt =====
-- The formatters of values that every entity can use (src/formatters.hpp).
use obmc_yadro_webapp.Prelude.{
  ℕ, suc, ◌/◌, ◌%◌, ◌^◌, ◌≡◌, ◌≢◌, refl, true, false, Option, none, some, [], ◌∷◌, ◌++◌, All, arith,
  nat_eq,
}
use obmc_yadro_webapp.Prelude.Int.{ℤ, pos, negsuc}
use obmc_yadro_webapp.Prelude.Text.{Text, text, after_last, to_string}
use obmc_yadro_webapp.Utils.{trim}
use obmc_yadro_webapp.Entity.{
  FieldType, string, int64, uint64, double, int32, uint32, int16, uint16, uint8, nullptr,
  field_value_not_available,
}

-- `DBusEnumFormatter`: the last segment of the name of an enumerator; a failure is caught.
unfoldable pub dbus_enum_formatter : FieldType → FieldType
unfolding after_last field_value_not_available
dbus_enum_formatter (string protocol) = elim (after_last b'.' protocol) [
  | none ↦ string field_value_not_available
  | some segment ↦ string segment
]
dbus_enum_formatter value = string field_value_not_available

-- `StrHexToNumberFormatter` of 64 bits: `stoul` is the standard library's reading of a number in base
-- 16, `none` its exception.
unfoldable pub str_hex_to_number_formatter : (Text → Option ℕ) → FieldType → FieldType
str_hex_to_number_formatter stoul (string str_value) = elim (stoul str_value) [
  | none ↦ uint64 0
  | some num_value ↦ uint64 (num_value % 2 ^ 64)
]
str_hex_to_number_formatter stoul value = uint64 0

int_to_string : ℤ → Text
int_to_string (pos n) = to_string n
int_to_string (negsuc n) = b'-' ∷ to_string (suc n)

-- `NumberToStringFormatter`; `std::to_string` of a floating number is a parameter. A truth value is a
-- number here.
unfoldable pub number_to_string_formatter : (Text → Text) → FieldType → FieldType
unfolding int_to_string to_string
number_to_string_formatter double_to_string (int64 n) = string (int_to_string n)
number_to_string_formatter double_to_string (uint64 n) = string (to_string n)
number_to_string_formatter double_to_string (double x) = string (double_to_string x)
number_to_string_formatter double_to_string (int32 n) = string (int_to_string n)
number_to_string_formatter double_to_string (uint32 n) = string (to_string n)
number_to_string_formatter double_to_string (int16 n) = string (int_to_string n)
number_to_string_formatter double_to_string (uint16 n) = string (to_string n)
number_to_string_formatter double_to_string (uint8 n) = string (to_string n)
number_to_string_formatter double_to_string (FieldType.boolean true) = string (text "1")
number_to_string_formatter double_to_string (FieldType.boolean false) = string (text "0")
number_to_string_formatter double_to_string value = nullptr

-- `TrimFormatter`; `none` is the exception.
unfoldable pub trim_formatter : FieldType → Option FieldType
unfolding trim
trim_formatter (string str_value) = some (string (trim str_value))
trim_formatter value = none

-- `FormatTime`; `formatted_date` is what `std::put_time` makes of a time by "%FT%T%z".
unfoldable pub format_time : (ℕ → Text) → FieldType → FieldType
format_time formatted_date (uint64 time_stamp) = string (formatted_date time_stamp)
format_time formatted_date value = string (text "0000-00-00T00:00:00Z00:00")

unfoldable pub format_time_ms_to_sec : (ℕ → Text) → FieldType → FieldType
unfolding format_time
format_time_ms_to_sec formatted_date (uint64 value_ms) =
    format_time formatted_date (uint64 (value_ms / 1000))
format_time_ms_to_sec formatted_date value = string (text "0000-00-00T00:00:00Z00:00")

no_dot : (name : Text) → All (λ c. c ≢ b'.') name → after_last b'.' name ≡ none
unfolding after_last
no_dot [] h = refl
no_dot (c ∷ name) h = rw (no_dot name h.1) (ground arith)

after_last-append :
    (prefix name : Text)
    → All (λ c. c ≢ b'.') name
    → after_last b'.' (prefix ++ b'.' ∷ name) ≡ some name
unfolding after_last
after_last-append [] name h = rw (after_last, no_dot name h) refl
after_last-append (c ∷ prefix) name h = rw (after_last, after_last-append prefix name h) refl

-- An enumerator's name comes back from behind any namespace.
dbus_enum_formatter_lem :
    (namespace name : Text)
    → All (λ c. c ≢ b'.') name
    → dbus_enum_formatter (string (namespace ++ b'.' ∷ name)) ≡ string name
unfolding dbus_enum_formatter
dbus_enum_formatter_lem namespace name h =
    rw (dbus_enum_formatter, after_last-append namespace name h) refl
