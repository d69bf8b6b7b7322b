-- ===== src/Formats/Pcie/Follow.antt =====
-- How one function's fields follow through the loops of the query of PCIe devices (src/pcie.hpp).
use obmc_yadro_webapp.Prelude.{
  ℕ, ◌≡◌, ◌∙◌, refl, ap, true, Option, none, some, List, [], ◌∷◌, ◌++◌, map, All, ◌/◌, ◌%◌, ◌^◌,
  nat_eq, text_eq, text_beq, lookup, arith, Option-cases, inl, inr,
}
use obmc_yadro_webapp.Prelude.Int.{pos}
use obmc_yadro_webapp.Prelude.Text.{Text, text, to_string}
use obmc_yadro_webapp.Utils.{get_name_from_last_segment_object_path}
use obmc_yadro_webapp.Entity.{
  FieldType, Field, Instance, string, uint8, int32, nullptr, get_field, get_value, get_string_value,
  as_int,
}
use obmc_yadro_webapp.Entity.Merge.{supplement_or_update_lem}
use obmc_yadro_webapp.Entity.Fields.{set_fields_lem, fields_after, set_from, source_of}
use obmc_yadro_webapp.Formats.Base.{raw_byte}
use obmc_yadro_webapp.Formats.Values.{str_hex_to_number_formatter}
use obmc_yadro_webapp.Formats.Pcie.{
  PcieProviderDeviceClass, pcie_provider_device_class_to_int, pcie_provider_device_class_dict,
  format_pcie_provider_device_class,
}
use obmc_yadro_webapp.Formats.Pcie.Functions.{
  function_indexes, get_complex_function_member_name, function_members, sbd_match, sbd_fields,
  set_sbd, set_status, device_class_id, device_class, then_set,
}

abbrev pub class_field : ℕ → Text
class_field index = get_complex_function_member_name index (text "DeviceClass")

abbrev pub sub_class_field : ℕ → Text
sub_class_field index = get_complex_function_member_name index (text "DeviceSubClass")

abbrev pub class_id_field : ℕ → Text
class_id_field index = get_complex_function_member_name index (text "DeviceClassId")

abbrev pub class_code_field : ℕ → Text
class_code_field index = get_complex_function_member_name index (text "ClassCode")

-- The third byte of the number that a class code reads as, or of 0.
unfoldable pub class_byte : (Text → Option ℕ) → Field → ℕ
class_byte stoul f =
    elim (stoul (get_string_value f)) [ none ↦ 0 | some n ↦ n % 2 ^ 64 ] / 2 ^ 16 % 2 ^ 8

-- The enumerator that the dictionary has for a byte.
unfoldable pub class_number : ℕ → ℕ
class_number byte =
    pcie_provider_device_class_to_int (elim (lookup byte pcie_provider_device_class_dict) [
      | none ↦ PcieProviderDeviceClass.other
      | some class ↦ class
    ])

-- A function's fields, from those that the instance had before.
unfoldable pub ShowsClass : (Text → Option ℕ) → Instance → Instance → ℕ → Type 0
ShowsClass stoul i next index =
    let byte = class_byte stoul (get_field (class_code_field index) i) in
    (get_field (sub_class_field index) next
      ≡ some (string (get_string_value (get_field (class_field index) i))))
    × (get_field (class_id_field index) next ≡ some (uint8 byte))
    × (get_field (class_field index) next ≡ some (int32 (pos (class_number byte))))

abbrev pub sub_class_members : List (Text × Text)
sub_class_members = function_members (text "DeviceClass") (text "DeviceSubClass")

abbrev pub class_id_members : List (Text × Text)
class_id_members = function_members (text "ClassCode") (text "DeviceClassId")

abbrev pub class_members : List (Text × Text)
class_members = function_members (text "DeviceClassId") (text "DeviceClass")

pub device_class_id_lem :
    (stoul : Text → Option ℕ) (f : Field)
    → device_class_id stoul f ≡ some (uint8 (class_byte stoul f))
unfolding device_class_id class_byte str_hex_to_number_formatter
device_class_id_lem stoul f = elim (Option-cases (stoul (get_string_value f))) [
  | inl failed ↦ rw (device_class_id, str_hex_to_number_formatter, class_byte, failed) refl
  | inr (n, read) ↦ rw (device_class_id, str_hex_to_number_formatter, class_byte, read) refl
]

pub device_class_lem :
    (byte : ℕ) → device_class (some (uint8 byte)) ≡ some (int32 (pos (class_number byte)))
unfolding device_class class_number format_pcie_provider_device_class get_value raw_byte as_int
device_class_lem byte = refl

-- What the last loop writes; the other case is an exception.
abbrev pub shown_class : Field → FieldType
shown_class f = elim (device_class f) [ none ↦ nullptr | some value ↦ value ]

pub shown_class_lem : (byte : ℕ) → shown_class (some (uint8 byte)) ≡ int32 (pos (class_number byte))
shown_class_lem byte =
    ap (λ (o : Option FieldType). elim o [ none ↦ nullptr | some value ↦ value ])
      (device_class_lem byte)

-- Where the loops take the fields of a function from.
abbrev pub Sources : Type 0
Sources =
    Option Text × Option Text × Option Text × Option Text × Option Text × Option Text × Option Text

abbrev pub sources : ℕ → Sources
sources index = (
  source_of sub_class_members (sub_class_field index),
  source_of class_id_members (sub_class_field index),
  source_of class_members (sub_class_field index),
  source_of sub_class_members (class_code_field index),
  source_of class_id_members (class_id_field index),
  source_of class_members (class_id_field index),
  source_of class_members (class_field index),
)

abbrev pub sources_expected : ℕ → Sources
sources_expected index = (
  some (class_field index),
  none,
  none,
  none,
  some (class_code_field index),
  none,
  some (class_id_field index),
)

pub sources_lem : map sources function_indexes ≡ map sources_expected function_indexes
unfolding source_of function_members get_complex_function_member_name text_beq
sources_lem = refl

pub map-All :
    {A B : Type 0} (f g : A → B) (xs : List A) → map f xs ≡ map g xs → All (λ x. f x ≡ g x) xs
map-All f g [] e = tt
map-All f g (x ∷ xs) e = (ground arith, map-All f g xs (ground arith))

pub All-map :
    {A : Type 0} {P Q : A → Type 0} (f : (x : A) → P x → Q x) (xs : List A) → All P xs → All Q xs
All-map f [] h = tt
All-map f (x ∷ xs) h = (f x h.0, All-map f xs h.1)

-- What a loop sets: each target, from its source.
unfoldable pub Sets : (Text → FieldType) → List (Text × Text) → Instance → Instance → Type 0
Sets g pairs i next =
    (j : Text)
    → lookup j next.member_instances ≡ set_from g (source_of pairs j) (lookup j i.member_instances)

pub get_field-set :
    (g : Text → FieldType) (pairs : List (Text × Text)) (i next : Instance) (j s : Text)
    → Sets g pairs i next
    → source_of pairs j ≡ some s
    → get_field j next ≡ some (g s)
unfolding get_field set_from Sets
get_field-set g pairs i next j s h e = rw (get_field, h j, e) refl

get_field-kept :
    (g : Text → FieldType) (pairs : List (Text × Text)) (i next : Instance) (j : Text)
    → Sets g pairs i next
    → source_of pairs j ≡ none
    → get_field j next ≡ get_field j i
unfolding get_field set_from Sets
get_field-kept g pairs i next j h e = rw (get_field, h j, e) refl

get_field-same :
    (j : Text) (i next : Instance)
    → lookup j next.member_instances ≡ lookup j i.member_instances
    → get_field j next ≡ get_field j i
unfolding get_field
get_field-same j i next e = rw (get_field, e) refl

sbd_fields-kept :
    (sbd rest : Text) (first : Option Field)
    → fields_after (sbd_fields sbd) (text "Function" ++ rest) first ≡ first
unfolding fields_after sbd_fields text_beq
sbd_fields-kept sbd rest first = elim (Option-cases (sbd_match sbd)) [
  | inl failed ↦ rw (sbd_fields, failed) refl
  | inr (m, found) ↦ rw (sbd_fields, found) refl
]

-- The position and the status leave the fields of the functions alone.
pub device_fields :
    (object_path : Text) (i : Instance)
    → (next : Instance) × (then_set (set_sbd object_path i) set_status ≡ some next)
      × ((rest : Text)
          → get_field (text "Function" ++ rest) next ≡ get_field (text "Function" ++ rest) i)
unfolding then_set set_sbd set_status text_beq
device_fields object_path i =
    let sbd = get_name_from_last_segment_object_path object_path true in
    let placed = set_fields_lem (sbd_fields sbd) i in
    let shown = supplement_or_update_lem (text "Status") (int32 (pos 0)) placed.0 in
    (
      shown.0,
      rw (set_sbd, placed.1) shown.1,
      λ rest. get_field-same (text "Function" ++ rest) i shown.0 (
          shown.2 (text "Function" ++ rest)
          ∙ placed.2 (text "Function" ++ rest)
          ∙ sbd_fields-kept sbd rest (lookup (text "Function" ++ rest) i.member_instances)),
    )

pub shows_class :
    (stoul : Text → Option ℕ) (i placed named numbered next : Instance) (index : ℕ)
    → ((rest : Text)
        → get_field (text "Function" ++ rest) placed ≡ get_field (text "Function" ++ rest) i)
    → Sets (λ s. string (get_string_value (get_field s placed))) sub_class_members placed named
    → Sets (λ s. uint8 (class_byte stoul (get_field s named))) class_id_members named numbered
    → Sets (λ s. shown_class (get_field s numbered)) class_members numbered next
    → sources index ≡ sources_expected index
    → ShowsClass stoul i next index
unfolding get_complex_function_member_name ShowsClass
shows_class stoul i placed named numbered next index read sets numbers classes e =
    let code =
      get_field-kept _ _ _ _ (class_code_field index) sets (ap (λ (t : Sources). t.3) e)
      ∙ read (to_string index ++ text "ClassCode") in
    let id =
      get_field-set _ _ _ _ (class_id_field index) (class_code_field index) numbers
        (ap (λ (t : Sources). t.4) e)
      ∙ ap (λ f. some (uint8 (class_byte stoul f))) code in
    (
      get_field-kept _ _ _ _ (sub_class_field index) classes (ap (λ (t : Sources). t.2) e)
          ∙ get_field-kept _ _ _ _ (sub_class_field index) numbers (ap (λ (t : Sources). t.1) e)
          ∙ get_field-set _ _ _ _ (sub_class_field index) (class_field index) sets
              (ap (λ (t : Sources). t.0) e)
          ∙ ap (λ f. some (string (get_string_value f)))
              (read (to_string index ++ text "DeviceClass")),
      get_field-kept _ _ _ _ (class_id_field index) classes (ap (λ (t : Sources). t.5) e) ∙ id,
      get_field-set _ _ _ _ (class_field index) (class_id_field index) classes
            (ap (λ (t : Sources). t.6) e)
          ∙ ap (λ f. some (shown_class f)) id
          ∙ ap some (shown_class_lem (class_byte stoul (get_field (class_code_field index) i))),
    )
