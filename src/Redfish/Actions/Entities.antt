-- ===== src/Redfish/Actions/Entities.antt =====
-- The actions that take their values from the instances of an entity
-- (src/core/route/redfish/node.hpp).
use obmc_yadro_webapp.Prelude.{
  ℕ, suc, Bool, true, false, Option, none, some, List, [], ◌∷◌, ◌++◌, map, if◌then◌else◌,
}
use obmc_yadro_webapp.Prelude.Int.{ℤ, pos}
use obmc_yadro_webapp.Prelude.Text.{Text, to_string}
use obmc_yadro_webapp.Json.{Json, null, boolean, int, float, str, arr, to_items}
use obmc_yadro_webapp.Entity.{
  FieldType, associations, strings, doubles, ints, string, int64, uint64, double, int32, uint32,
  int16, uint16, uint8, nullptr, is_null, get_value, get_field, Instance, Condition,
}
use obmc_yadro_webapp.Entity.Relation.{get_member, get_relation, get_related_instances}
use obmc_yadro_webapp.Redfish.Context.{RedfishContext, IEntity, entity_instances, response_add}
use obmc_yadro_webapp.Redfish.Messages.{internal_error_of}
use obmc_yadro_webapp.Redfish.Actions.{
  Handled, done, thrown, undefined, ◌>>=◌, Action, Childs, process_all, field_getter, enum_getter,
  static_collection_getter,
}

-- `EntityGetter`: the actions of its children in the context that it is given.
unfoldable pub entity_getter : Childs → Action
unfolding process_all
entity_getter childs = record { get_field_name = none; process = λ ctx. childs ctx >>= process_all }

-- `getInstances<TSource>` of `EntityGetter`: whether the entity is the source's own, the entity, the
-- source's entity and the parent instance. `none` is an exception.
unfoldable pub getter_instances :
    Bool → IEntity → IEntity → Option Instance → List (Option Condition) → Option (List Instance)
unfolding entity_instances get_relation get_related_instances
getter_instances same entity parent_entity none conditions =
    some (entity_instances entity conditions)
getter_instances true entity parent_entity (some parent) conditions = some (parent ∷ [])
getter_instances false entity parent_entity (some parent) conditions =
    elim (get_relation entity.name parent_entity.relations) [
      | none ↦ some (entity_instances entity conditions)
      | some relation ↦ get_related_instances (some relation) parent.hash conditions false
    ]

-- The conversion of a field's value to JSON.
unfoldable pub field_json : FieldType → Json
field_json (associations values) =
    arr (to_items (map (λ v. arr (to_items (str v.0 ∷ str v.1 ∷ str v.2 ∷ []))) values))
field_json (strings values) = arr (to_items (map str values))
field_json (doubles values) = arr (to_items (map float values))
field_json (ints values) = arr (to_items (map int values))
field_json (string s) = str s
field_json (int64 n) = int n
field_json (uint64 n) = int (pos n)
field_json (double x) = float x
field_json (int32 n) = int n
field_json (uint32 n) = int (pos n)
field_json (int16 n) = int n
field_json (uint16 n) = int (pos n)
field_json (uint8 n) = int (pos n)
field_json (FieldType.boolean b) = boolean b
field_json nullptr = null

-- The visitor of `ScalarFieldGetter`: an empty string is not added.
unfoldable pub add_value : Text → FieldType → RedfishContext → RedfishContext
unfolding response_add field_json
add_value name (string []) ctx = ctx
add_value name value ctx = response_add name (field_json value) ctx

-- `ScalarFieldGetter`. The member that the entity does not have is reported, and the field is null.
unfoldable pub scalar_field :
    IEntity → Text → Text → Option Instance → RedfishContext → RedfishContext
unfolding get_member get_field is_null get_value internal_error_of add_value
scalar_field entity name source_field i ctx = elim (get_member source_field entity.members) [
  | none ↦ add_value name nullptr (internal_error_of name ctx)
  | some member ↦ elim i [
    | none ↦ add_value name nullptr ctx
    | some found ↦
        if is_null (get_field member found)
        then add_value name nullptr ctx
        else add_value name (get_value (get_field member found)) ctx
  ]
]

unfoldable pub scalar_field_getter : IEntity → Text → Text → Option Instance → Action
unfolding scalar_field
scalar_field_getter entity name source_field i = record {
  get_field_name = some name;
  process = λ ctx. done tt (scalar_field entity name source_field i ctx);
}

-- The visitor of `EntityEnumFieldGetter`. A value of another type is reported.
unfoldable pub visit_enum :
    (ℤ → Option Text) → Text → FieldType → RedfishContext → Handled (Unit {0})
unfolding enum_getter response_add internal_error_of
visit_enum cast_enum_to_string name (int32 n) ctx =
    (enum_getter cast_enum_to_string name n).process ctx
visit_enum cast_enum_to_string name nullptr ctx = done tt (response_add name null ctx)
visit_enum cast_enum_to_string name value ctx =
    done tt (response_add name null (internal_error_of name ctx))

unfoldable pub entity_enum_field_getter :
    (ℤ → Option Text) → IEntity → Text → Text → Option Instance → Action
unfolding get_member get_field is_null get_value internal_error_of response_add visit_enum
entity_enum_field_getter cast_enum_to_string entity name source_field i = record {
  get_field_name = some name;
  process = λ ctx. elim (get_member source_field entity.members) [
    | none ↦ done tt (response_add name null (internal_error_of name ctx))
    | some member ↦ elim i [
      | none ↦ done tt (response_add name null ctx)
      | some found ↦
          if is_null (get_field member found)
          then done tt (response_add name null ctx)
          else visit_enum cast_enum_to_string name (get_value (get_field member found)) ctx
    ]
  ];
}

-- The getter of an element, `TSubTypeGetter`: a list of a type other than its own gives no element.
pub data SubType : Type 0 where
  string_getter : SubType
  int_enum_getter : (ℤ → Option Text) → SubType
  other_getter : SubType

unfoldable pub element_getters : SubType → Text → FieldType → List Action
unfolding field_getter enum_getter
element_getters string_getter name (strings values) = map (λ s. field_getter name (str s)) values
element_getters (int_enum_getter cast_enum_to_string) name (ints values) =
    map (enum_getter cast_enum_to_string name) values
element_getters sub_type name value = []

unfoldable pub list_childs : SubType → Text → Text → Option Instance → Childs
unfolding element_getters get_value get_field
list_childs sub_type name source_field none ctx = undefined
list_childs sub_type name source_field (some i) ctx =
    done (element_getters sub_type name (get_value (get_field source_field i))) ctx

unfoldable pub list_field_getter :
    (List Json → List Json) → SubType → Text → Text → Option Instance → Action
unfolding static_collection_getter list_childs
list_field_getter sort sub_type name source_field i =
    static_collection_getter sort name (list_childs sub_type name source_field i)

-- `addGetter`: the first instance gets a getter; that there is none is reported. `none` is an
-- exception of `getInstances`.
unfoldable pub add_getter :
    (Text → Text → Option Instance → Action)
    → Text
    → Text
    → Option (List Instance)
    → List Action
    → Childs
unfolding internal_error_of
add_getter make name source_field none handlers ctx = thrown ctx
add_getter make name source_field (some []) handlers ctx =
    done handlers (internal_error_of name ctx)
add_getter make name source_field (some (first ∷ others)) handlers ctx =
    done (handlers ++ make name source_field (some first) ∷ []) ctx

-- The fragments of `CollectionGetter`, numbered from the index on.
unfoldable pub fragments : (Text → Instance → Action) → ℕ → List Instance → List Action
fragments fragment index [] = []
fragments fragment index (target ∷ rest) =
    fragment (to_string index) target ∷ fragments fragment (suc index) rest

unfoldable pub collection_getter :
    (List Json → List Json) → (Text → Instance → Action) → Text → Option (List Instance) → Action
unfolding static_collection_getter fragments
collection_getter sort fragment name instances = static_collection_getter sort name (λ ctx.
    elim instances [ none ↦ thrown ctx | some found ↦ done (fragments fragment 0 found) ctx ])
