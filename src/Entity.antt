-- ===== src/Entity.antt =====
-- Entities: the instances that the queries find, their fields, and the conditions that select them
-- (src/core/entity/entity.hpp, src/core/entity/entity.cpp, src/core/entity/entity_interface.hpp).
pub mod Conditions
pub mod Merge
pub mod Fields
pub mod Store
pub mod Kinds
pub mod Relation
pub mod Source
pub mod Manager
mod Tests
use obmc_yadro_webapp.Prelude.{
  ℕ, ◌≡◌, Bool, true, false, not, ◌||◌, Option, none, some, List, [], ◌∷◌, ◌++◌, map, if◌then◌else◌,
  Eq, ◌==◌, nat_eq, text_eq, lookup, emplace, insert_or_assign,
}
use obmc_yadro_webapp.Prelude.Text.{Text, text}
use obmc_yadro_webapp.Prelude.Int.{ℤ, pos, negsuc}

-- `FieldType`. A floating number is kept as its text.
pub data FieldType : Type 0 where
  associations : List (Text × Text × Text) → FieldType
  strings : List Text → FieldType
  doubles : List Text → FieldType
  ints : List ℤ → FieldType
  string : Text → FieldType
  int64 : ℤ → FieldType
  uint64 : ℕ → FieldType
  double : Text → FieldType
  int32 : ℤ → FieldType
  uint32 : ℕ → FieldType
  int16 : ℤ → FieldType
  uint16 : ℕ → FieldType
  uint8 : ℕ → FieldType
  boolean : Bool → FieldType
  nullptr : FieldType

-- A field of an instance: `std::optional<FieldType>`.
abbrev pub Field : Type 0
Field = Option FieldType

unfoldable pub field_value_not_available : Text
field_value_not_available = text "N/A"

unfoldable pub is_null : Field → Bool
is_null none = true
is_null (some nullptr) = true
is_null (some value) = false

unfoldable pub get_value : Field → FieldType
unfolding is_null field_value_not_available
get_value none = string field_value_not_available
get_value (some value) = if is_null (some value) then string field_value_not_available else value

-- `std::get` where `std::holds_alternative` says that it can.
unfoldable pub as_string : FieldType → Option Text
as_string (string s) = some s
as_string _ = none

unfoldable pub as_int : FieldType → Option ℤ
as_int (int32 n) = some n
as_int _ = none

unfoldable pub as_double : FieldType → Option Text
as_double (double x) = some x
as_double _ = none

unfoldable pub as_bool : FieldType → Option Bool
as_bool (boolean b) = some b
as_bool _ = none

unfoldable pub get_string_value : Field → Text
unfolding as_string get_value field_value_not_available
get_string_value f = elim (as_string (get_value f)) [
  | some s ↦ s
  | none ↦ field_value_not_available
]

unfoldable pub get_int_value : Field → ℤ
unfolding as_int get_value
get_int_value f = elim (as_int (get_value f)) [ some n ↦ n | none ↦ pos 0 ]

unfoldable pub get_float_value : Field → Text
unfolding as_double get_value
get_float_value f = elim (as_double (get_value f)) [ some x ↦ x | none ↦ text "0.0" ]

unfoldable pub get_bool_value : Field → Bool
unfolding as_bool get_value
get_bool_value f = elim (as_bool (get_value f)) [ some b ↦ b | none ↦ false ]

unfoldable pub get_type : Field → Text
unfolding is_null get_value
get_type f = if is_null f then text "Null" else elim (get_value f) [
  | string s ↦ text "String"
  | int32 n ↦ text "Integer"
  | double x ↦ text "Double"
  | boolean b ↦ text "Boolean"
  | _ ↦ text "Unknown"
]

-- An instance: the value of `getHash`, which its identity fixes, and its fields by member name.
pub record Instance : Type 0 where
  pub hash : ℕ
  pub member_instances : List (Text × Field)

unfoldable pub has_field : Text → Instance → Bool
has_field member i = elim (lookup member i.member_instances) [ none ↦ false | some f ↦ true ]

-- A member that is not there has the field without a value.
unfoldable pub get_field : Text → Instance → Field
get_field member i = elim (lookup member i.member_instances) [ none ↦ none | some f ↦ f ]

unfoldable pub get_member_names : Instance → List Text
get_member_names i = map (λ m. m.0) i.member_instances

-- `none` is the exception: the member is there already.
unfoldable pub supplement : Text → FieldType → Instance → Option Instance
unfolding has_field
supplement member value i =
    if has_field member i
    then none
    else some (record i { member_instances = emplace member (some value) i.member_instances })

unfoldable pub set_field : Text → FieldType → Instance → Instance
set_field member value i = record i {
  member_instances = insert_or_assign member (some value) i.member_instances;
}

unfoldable pub supplement_or_update : Text → FieldType → Instance → Option Instance
unfolding has_field set_field supplement
supplement_or_update member value i =
    if has_field member i then some (set_field member value i) else supplement member value i

-- The members of the list, with their values in `destination`.
unfoldable pub supplement_members : List Text → Instance → Instance → Option Instance
unfolding supplement_or_update get_value get_field
supplement_members [] destination i = some i
supplement_members (member ∷ members) destination i =
    elim (supplement_or_update member (get_value (get_field member destination)) i) [
      | none ↦ none
      | some next ↦ supplement_members members destination next
    ]

-- `supplementOrUpdate` with an instance: this one last.
unfoldable pub supplement_from : Instance → Instance → Option Instance
unfolding supplement_members get_member_names
supplement_from destination i = supplement_members (get_member_names destination) destination i

-- The types that conditions compare: `TValue` of `Equal` and `NonEqual`, an enumeration as the
-- integers.
pub data ValueKind : Type 0 where
  string_kind int_kind bool_kind : ValueKind

unfoldable pub int_beq : ℤ → ℤ → Bool
int_beq (pos m) (pos n) = m == n
int_beq (negsuc m) (negsuc n) = m == n
int_beq _ _ = false

unfoldable pub bool_beq : Bool → Bool → Bool
bool_beq true b = b
bool_beq false b = not b

-- Both values hold the type, and are equal.
unfoldable pub both_equal {ℓ} : {A : Type ℓ} → (A → A → Bool) → Option A → Option A → Bool
both_equal same (some left) (some right) = same left right
both_equal same _ _ = false

-- `operator()` of `Equal`: there is no instance for `none`.
unfoldable pub equal : ValueKind → Option Field → FieldType → Bool
unfolding get_value int_beq bool_beq both_equal as_string as_int as_bool
equal kind none value = false
equal string_kind (some f) value = both_equal ◌==◌ (as_string (get_value f)) (as_string value)
equal int_kind (some f) value = both_equal int_beq (as_int (get_value f)) (as_int value)
equal bool_kind (some f) value = both_equal bool_beq (as_bool (get_value f)) (as_bool value)

unfoldable pub non_equal : ValueKind → Option Field → FieldType → Bool
unfolding equal
non_equal kind instance_field value = not (equal kind instance_field value)

abbrev pub CompareCallback : Type 0
CompareCallback = Option Field → FieldType → Bool

-- A condition: its rules, in the order in which they were added.
abbrev pub Condition : Type 0
Condition = List (Text × FieldType × CompareCallback)

unfoldable pub dummy_field : Text
dummy_field = text "_"

unfoldable pub add_rule : Text → FieldType → CompareCallback → Condition → Condition
add_rule member value compare_callback rules = rules ++ (member, value, compare_callback) ∷ []

-- The overload for a test of the field alone.
unfoldable pub add_custom_rule : Text → (Option Field → Bool) → Condition → Condition
unfolding add_rule
add_custom_rule member compare_callback rules =
    add_rule member nullptr (λ f value. compare_callback f) rules

-- The loop calls every rule, also behind one that failed.
unfoldable pub compare_rules : Condition → Instance → Bool → Bool
unfolding get_field dummy_field
compare_rules [] source_instance result = result
compare_rules ((member, right_value, compare_callback) ∷ rules) source_instance result =
    let member_instance =
      if dummy_field == member then none else some (get_field member source_instance) in
    let passed = compare_callback member_instance right_value in
    compare_rules rules source_instance (if passed then result else false)

unfoldable pub field_value_compare : Condition → Instance → Bool
unfolding compare_rules
field_value_compare condition source_instance = compare_rules condition source_instance true

-- `checkCondition`; there is no condition for `none`.
unfoldable pub check_condition : Option Condition → Instance → Bool
unfolding field_value_compare
check_condition none i = true
check_condition (some condition) i = field_value_compare condition i
