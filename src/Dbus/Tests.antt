-- ===== src/Dbus/Tests.antt =====
-- The theorems on the queries of the bus at one search and one object.
use obmc_yadro_webapp.Prelude.{
  ℕ, ◌≡◌, ◌↔◌, ◌⊎◌, refl, true, none, some, Option, List, [], ◌∷◌, lookup, if◌then◌else◌, ◌==◌,
  nat_eq, text_eq, text_beq,
}
use obmc_yadro_webapp.Prelude.Int.{pos}
use obmc_yadro_webapp.Prelude.Text.{Text, text, starts_with}
use obmc_yadro_webapp.Utils.{count_extra_segments_of_path}
use obmc_yadro_webapp.Entity.{Instance, string, get_value}
use obmc_yadro_webapp.Dbus.{
  DBusObjectEndpoint, DBusInstance, find_object_check, find_object_check_path, supplement_from_dbus,
  introspect_dbus_object_interfaces, meta_object_path,
}
use obmc_yadro_webapp.Dbus.Criteria.{Some, IsService, IsWithinDepth, find_object_check_iff}
use obmc_yadro_webapp.Dbus.Meta.{is_meta, supplement_from_dbus_lem}
use obmc_yadro_webapp.Dbus.Signals.{
  DBusCache, Query, object_created, object_removed, object_created-object_removed,
}
use obmc_yadro_webapp.Dbus.Connect.{
  ServiceNames, named, not_provided, get_well_known_service_name, get_well_known_service_name_lem,
}

abbrev inventory : DBusObjectEndpoint
inventory = record {
  path = text "/xyz/inventory";
  interfaces = text "Item" ∷ [];
  depth = pos 1;
  service = none;
}

find_object_check_iff_example :
    (find_object_check inventory (text "/xyz/inventory/cpu0") (text "Item" ∷ []) (some (text "Inv"))
      ≡ true)
    ↔ (IsService (some (text "Inv")) none
        × (starts_with (text "/xyz/inventory") (text "/xyz/inventory/cpu0") ≡ true)
        × IsWithinDepth
            (pos 1)
            (count_extra_segments_of_path (text "/xyz/inventory") (text "/xyz/inventory/cpu0"))
        × Some (λ i. Some (λ c. i ≡ c) (text "Item" ∷ [])) (text "Item" ∷ []))
find_object_check_iff_example =
    find_object_check_iff inventory (text "/xyz/inventory/cpu0") (text "Item" ∷ [])
      (some (text "Inv"))

abbrev cpu : Instance
cpu = record {
  hash = 3;
  member_instances =
      (meta_object_path, some (string (text "/cpu")))
      ∷ (text "Name", some (string (text "CPU")))
      ∷ [];
}

abbrev core : Instance
core = record {
  hash = 4;
  member_instances =
      (meta_object_path, some (string (text "/core")))
      ∷ (text "Name", some (string (text "C")))
      ∷ [];
}

supplement_from_dbus_lem_example :
    (next : Instance) × (supplement_from_dbus core cpu ≡ some next)
    × ((j : Text)
        → lookup j next.member_instances ≡ (
            if is_meta j
            then lookup j cpu.member_instances
            else elim (lookup j core.member_instances) [
              | none ↦ lookup j cpu.member_instances
              | some f ↦ some (some (get_value f))
            ]))
    × (next.hash ≡ cpu.hash)
supplement_from_dbus_lem_example = supplement_from_dbus_lem core cpu

-- A search without configured properties, on a bus with one service.
abbrev search : Query
search = record {
  check_path = find_object_check_path inventory;
  check = find_object_check inventory;
  search_properties = [];
  supplement_by_static_fields = λ i. i;
  well_known_name = λ sender. some (text "Inv");
  mapper_get_object = λ object_path interfaces. (text "Inv", interfaces) ∷ [];
  query_properties = λ service object_path interface. none;
  combined_hash = λ service object_path. 5;
}

path_accepted : search.check_path (text "/xyz/inventory/cpu0") (some (text "Inv")) ≡ true
unfolding find_object_check_path starts_with
path_accepted = refl

abbrev five : ℕ
five = 5

abbrev no_object : DBusCache
no_object = []

abbrev item : List Text
item = text "Item" ∷ []

added_accepted :
    search.check
      (text "/xyz/inventory/cpu0")
      (introspect_dbus_object_interfaces
        (text "Inv")
        (search.mapper_get_object (text "/xyz/inventory/cpu0") item))
      (some (text "Inv"))
    ≡ true
unfolding find_object_check introspect_dbus_object_interfaces starts_with text_beq
added_accepted = refl

object_created-object_removed_example :
    ((stored : DBusInstance) × (lookup five
          (object_created search (text "/xyz/inventory/cpu0") item (text ":1.7") no_object).1
        ≡ (if five == five then some stored else lookup five no_object)))
    × (lookup five
          (object_removed search
            (text "/xyz/inventory/cpu0")
            item
            (text ":1.7")
            (object_created search (text "/xyz/inventory/cpu0") item (text ":1.7") no_object).1).1
        ≡ (if five == five then none else lookup five no_object))
unfolding introspect_dbus_object_interfaces text_beq
object_created-object_removed_example =
    object_created-object_removed search (text "/xyz/inventory/cpu0") (text ":1.7") (text "Inv")
      item item five no_object tt refl path_accepted added_accepted added_accepted

abbrev listed : ℕ → List (Text × Option Text)
listed n = (text "Inv", some (text ":1.7")) ∷ []

get_well_known_service_name_lem_example :
    ((name : Text) × (known : ServiceNames) × (get_well_known_service_name listed (text ":1.7") []
        ≡ named name known)
      × (lookup (text ":1.7") known ≡ some name))
    ⊎ ((known : ServiceNames) × (get_well_known_service_name listed (text ":1.7") []
          ≡ not_provided known))
get_well_known_service_name_lem_example = get_well_known_service_name_lem listed (text ":1.7") []
