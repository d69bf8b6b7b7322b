-- ===== src/Formats/Pcie/Functions.antt =====
-- The fields that the query of PCIe devices computes: the position of the device, its status, and the
-- class of each function (src/pcie.hpp).
use obmc_yadro_webapp.Prelude.{
  ℕ, ◌/◌, ◌%◌, ◌^◌, true, Option, none, some, List, [], ◌∷◌, ◌++◌, map, ◌==◌, leb, ◌&&◌, nat_eq,
  text_eq, if◌then◌else◌,
}
use obmc_yadro_webapp.Prelude.Int.{pos}
use obmc_yadro_webapp.Prelude.Text.{Text, text, is_empty, to_string}
use obmc_yadro_webapp.Utils.{get_name_from_last_segment_object_path}
use obmc_yadro_webapp.Status.{ok, status_to_int}
use obmc_yadro_webapp.Entity.{
  FieldType, Field, Instance, string, uint64, uint8, int32, as_int, get_value, get_string_value,
  supplement_or_update,
}
use obmc_yadro_webapp.Entity.Fields.{set_fields, set_each}
use obmc_yadro_webapp.Formats.Base.{raw_byte}
use obmc_yadro_webapp.Formats.Values.{str_hex_to_number_formatter}
use obmc_yadro_webapp.Formats.Pcie.{
  PcieProviderDeviceClass, pcie_provider_device_class_to_int, format_pcie_provider_device_class,
}

-- The indexes below `pcieFunctionsCount`.
abbrev pub function_indexes : List ℕ
function_indexes = 0 ∷ 1 ∷ 2 ∷ 3 ∷ 4 ∷ 5 ∷ 6 ∷ 7 ∷ []

unfoldable pub get_complex_function_member_name : ℕ → Text → Text
unfolding to_string
get_complex_function_member_name index dyn_member_name =
    text "Function" ++ to_string index ++ dyn_member_name

-- For each function, the members of two of its fields.
unfoldable pub function_members : Text → Text → List (Text × Text)
unfolding get_complex_function_member_name
function_members source target =
    map
      (λ index. (
        get_complex_function_member_name index source,
        get_complex_function_member_name index target,
      ))
      function_indexes

-- The digits at the front of a text, and the rest.
unfoldable pub digits : Text → Text × Text
digits [] = ([], [])
digits (c ∷ s) =
    let rest = digits s in if leb b'0' c && leb c b'9' then (c ∷ rest.0, rest.1) else ([], c ∷ s)

-- A letter and one digit or more: the digits, and the rest.
unfoldable pub match_group : ℕ → Text → Option (Text × Text)
unfolding digits
match_group letter [] = none
match_group letter (c ∷ s) =
    let found = digits s in
    if c == letter then (if is_empty found.0 then none else some found) else none

-- The groups of "^S(\d+)B(\d+)D(\d+)$".
unfoldable pub sbd_match : Text → Option (Text × Text × Text)
unfolding match_group
sbd_match sbd = elim (match_group b'S' sbd) [
  | none ↦ none
  | some (socket, behind_socket) ↦ elim (match_group b'B' behind_socket) [
    | none ↦ none
    | some (bus, behind_bus) ↦ elim (match_group b'D' behind_bus) [
      | none ↦ none
      | some (address, behind_address) ↦
          if is_empty behind_address then some (socket, bus, address) else none
    ]
  ]
]

-- The fields that `setSBD` sets, in their order.
unfoldable pub sbd_fields : Text → List (Text × FieldType)
unfolding sbd_match
sbd_fields sbd = (text "Id", string sbd) ∷ elim (sbd_match sbd) [
  | none ↦ []
  | some (socket, bus, address) ↦
      (text "Socket", string socket)
      ∷ (text "Bus", string bus)
      ∷ (text "Address", string address)
      ∷ []
]

unfoldable pub set_sbd : Text → Instance → Option Instance
unfolding sbd_fields set_fields get_name_from_last_segment_object_path
set_sbd object_path i =
    set_fields (sbd_fields (get_name_from_last_segment_object_path object_path true)) i

unfoldable pub set_status : Instance → Option Instance
unfolding supplement_or_update
set_status i = supplement_or_update (text "Status") (int32 (pos (status_to_int ok))) i

unfoldable pub device_sub_class : Field → Option FieldType
unfolding get_string_value
device_sub_class f = some (string (get_string_value f))

unfoldable pub set_device_sub_class : Instance → Option Instance
unfolding device_sub_class function_members set_each
set_device_sub_class i =
    set_each device_sub_class (function_members (text "DeviceClass") (text "DeviceSubClass")) i

unfoldable pub other_device_class_id : ℕ
other_device_class_id = 0xFF

-- The third byte of the class code.
unfoldable pub device_class_id : (Text → Option ℕ) → Field → Option FieldType
unfolding str_hex_to_number_formatter get_string_value other_device_class_id
device_class_id stoul f = elim (str_hex_to_number_formatter stoul (string (get_string_value f))) [
  | uint64 cc ↦ some (uint8 (cc / 2 ^ 16 % 2 ^ 8))
  | _ ↦ some (uint8 other_device_class_id)
]

unfoldable pub set_device_class_id : (Text → Option ℕ) → Instance → Option Instance
unfolding device_class_id function_members set_each
set_device_class_id stoul i =
    set_each (device_class_id stoul) (function_members (text "ClassCode") (text "DeviceClassId")) i

-- `none` is the exception of `std::get` or of the formatter.
unfoldable pub device_class : Field → Option FieldType
unfolding raw_byte get_value format_pcie_provider_device_class as_int
    pcie_provider_device_class_to_int
device_class f = elim (raw_byte (get_value f)) [
  | none ↦ none
  | some dci ↦ elim (format_pcie_provider_device_class (uint8 dci)) [
    | none ↦ none
    | some dbus_value ↦ some (
        int32 (elim (as_int dbus_value) [
          | none ↦ pos (pcie_provider_device_class_to_int PcieProviderDeviceClass.other)
          | some n ↦ n
        ]))
  ]
]

unfoldable pub set_device_class : Instance → Option Instance
unfolding device_class function_members set_each
set_device_class i =
    set_each device_class (function_members (text "DeviceClassId") (text "DeviceClass")) i

-- An exception ends the rest.
unfoldable pub then_set {ℓ} : {A : Type ℓ} → Option A → (A → Option A) → Option A
then_set none f = none
then_set (some a) f = f a

unfoldable pub supplement_by_static_fields : (Text → Option ℕ) → Text → Instance → Option Instance
unfolding set_sbd set_status set_device_sub_class set_device_class_id set_device_class then_set
supplement_by_static_fields stoul object_path i =
    then_set
      (then_set (then_set (then_set (set_sbd object_path i) set_status) set_device_sub_class)
        (set_device_class_id stoul))
      set_device_class
