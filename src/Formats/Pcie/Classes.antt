-- ===== src/Formats/Pcie/Classes.antt =====
-- What the query of PCIe devices shows of the class of each function (src/pcie.hpp).
use obmc_yadro_webapp.Prelude.{
  ℕ, ◌≡◌, ◌∙◌, refl, ap, sym, Option, some, List, [], ◌∷◌, All, nat_eq, text_eq, text_beq,
}
use mathlib.Core.Path.{subst}
use obmc_yadro_webapp.Prelude.Text.{Text}
use obmc_yadro_webapp.Entity.{
  FieldType, Field, Instance, string, uint8, get_field, get_string_value,
}
use obmc_yadro_webapp.Entity.Fields.{set_each_lem, apart, Reads}
use obmc_yadro_webapp.Formats.Pcie.Functions.{
  function_indexes, get_complex_function_member_name, function_members, device_sub_class,
  set_device_sub_class, device_class_id, set_device_class_id, device_class, set_device_class,
  then_set, supplement_by_static_fields,
}
use obmc_yadro_webapp.Formats.Pcie.Follow.{
  class_id_field, class_code_field, sub_class_members, class_id_members, class_members, shown_class,
  Sources, sources, sources_expected, device_class_id_lem, device_class_lem, shown_class_lem,
  sources_lem, map-All, All-map, get_field-set, device_fields, shows_class, Sets, ShowsClass,
  class_byte,
}

Reads-every :
    (value : Field → Option FieldType) (h : Field → FieldType) (i : Instance)
    (pairs : List (Text × Text))
    → ((f : Field) → value f ≡ some (h f))
    → Reads value (λ s. h (get_field s i)) i pairs
unfolding Reads
Reads-every value h i [] every = tt
Reads-every value h i (p ∷ pairs) every =
    (every (get_field p.0 i), Reads-every value h i pairs every)

-- A byte is a class, so that the last loop reads each field that the loop before it wrote.
reads_class : (f : Field) (byte : ℕ) → f ≡ some (uint8 byte) → device_class f ≡ some (shown_class f)
reads_class f byte e =
    subst (λ g. device_class g ≡ some (shown_class g)) (sym e)
      (device_class_lem byte ∙ ap some (sym (shown_class_lem byte)))

class_members-Reads :
    (stoul : Text → Option ℕ) (named numbered : Instance)
    → Sets (λ s. uint8 (class_byte stoul (get_field s named))) class_id_members named numbered
    → Reads device_class (λ s. shown_class (get_field s numbered)) numbered class_members
unfolding Reads function_members
class_members-Reads stoul named numbered numbers =
    All-map {P = λ index. sources index ≡ sources_expected index}
      (λ index e.
        reads_class (get_field (class_id_field index) numbered)
          (class_byte stoul (get_field (class_code_field index) named))
          (get_field-set _ _ _ _ (class_id_field index) (class_code_field index) numbers
            (ap (λ (t : Sources). t.4) e)))
      function_indexes (map-All sources sources_expected function_indexes sources_lem)

-- The computed fields of a PCIe device are set without an exception, and for each of its functions the
-- class that the bus gives becomes the subclass, the third byte of the class code the class's number,
-- and the class is the enumerator of that number. A class code that cannot be read counts as 0.
pub supplement_by_static_fields_lem :
    (stoul : Text → Option ℕ) (object_path : Text) (i : Instance)
    → (next : Instance) × (supplement_by_static_fields stoul object_path i ≡ some next)
      × All (ShowsClass stoul i next) function_indexes
unfolding set_device_sub_class set_device_class_id set_device_class then_set apart function_members
    get_complex_function_member_name text_beq device_sub_class Sets supplement_by_static_fields
supplement_by_static_fields_lem stoul object_path i =
    let placed = device_fields object_path i in
    let named =
      set_each_lem device_sub_class (λ s. string (get_string_value (get_field s placed.0)))
        sub_class_members placed.0 refl
        (Reads-every device_sub_class (λ f. string (get_string_value f)) placed.0 sub_class_members
          (λ f. refl)) in
    let numbered =
      set_each_lem (device_class_id stoul) (λ s. uint8 (class_byte stoul (get_field s named.0)))
        class_id_members named.0 refl
        (Reads-every (device_class_id stoul) (λ f. uint8 (class_byte stoul f)) named.0
          class_id_members (device_class_id_lem stoul)) in
    let classed =
      set_each_lem device_class (λ s. shown_class (get_field s numbered.0)) class_members numbered.0
        refl (class_members-Reads stoul named.0 numbered.0 numbered.2) in
    (
      classed.0,
      rw (supplement_by_static_fields, placed.1, named.1, numbered.1) classed.1,
      All-map {P = λ index. sources index ≡ sources_expected index}
          (λ index.
            shows_class stoul i placed.0 named.0 numbered.0 classed.0 index placed.2 named.2
              numbered.2 classed.2)
          function_indexes (map-All sources sources_expected function_indexes sources_lem),
    )
