-- ===== src/Dbus.antt =====
-- Queries of D-Bus objects: which objects they accept, and the instances that they make of them
-- (src/core/entity/dbus_query.cpp, src/core/entity/dbus_query.hpp). The bus is a parameter.
pub mod Criteria
pub mod Meta
pub mod Signals
pub mod Connect
pub mod Kind
mod Tests
use obmc_yadro_webapp.Prelude.{
  ℕ, ◌<◌, ◌≡◌, Bool, true, false, not, ◌&&◌, ◌||◌, Option, none, some, List, [], ◌∷◌, ◌++◌,
  if◌then◌else◌, Eq, ◌==◌, ltb, nat_eq, text_eq, any_of, lookup, emplace,
}
use obmc_yadro_webapp.Prelude.Int.{ℤ, pos, negsuc}
use obmc_yadro_webapp.Prelude.Text.{Text, text, starts_with, is_empty}
use obmc_yadro_webapp.Utils.{count_extra_segments_of_path}
use obmc_yadro_webapp.Entity.{
  FieldType, string, Instance, get_value, get_field, get_member_names, supplement,
  supplement_or_update, supplement_members,
}

-- The criteria of a search for objects.
pub record DBusObjectEndpoint : Type 0 where
  pub path : Text
  pub interfaces : List Text
  pub depth : ℤ
  pub service : Option Text

-- A service is asked for and another one is given.
abbrev pub other_service : Option Text → Option Text → Bool
other_service (some given) (some wanted) = not (given == wanted)
other_service _ _ = false

-- `checkCriteria` of `FindObjectDBusQuery`, without interfaces.
unfoldable pub find_object_check_path : DBusObjectEndpoint → Text → Option Text → Bool
find_object_check_path criteria object_path service =
    if other_service service criteria.service
    then false
    else if not (starts_with criteria.path object_path)
    then false
    else true

-- A depth of 0 or below is no limit.
abbrev pub too_deep : ℤ → ℕ → Bool
too_deep (pos depth) segments = ltb 0 depth && ltb depth segments
too_deep (negsuc depth) segments = false

-- Some interface of the one list stands in the other.
abbrev pub shares : List Text → List Text → Bool
shares interfaces_to_check criteria_interfaces =
    any_of (λ i. any_of (λ c. i == c) criteria_interfaces) interfaces_to_check

unfoldable pub find_object_check : DBusObjectEndpoint → Text → List Text → Option Text → Bool
unfolding find_object_check_path count_extra_segments_of_path
find_object_check criteria object_path interfaces_to_check service =
    if not (find_object_check_path criteria object_path service)
    then false
    else if too_deep criteria.depth (count_extra_segments_of_path criteria.path object_path)
    then false
    else if not (shares interfaces_to_check criteria.interfaces)
    then false
    else true

-- The services and interfaces of the mapper's answer that the search makes instances of: the object
-- path, the service, and the interfaces.
unfoldable pub accepted_services :
    DBusObjectEndpoint → Text → List (Text × List Text) → List (Text × Text × List Text)
accepted_services criteria object_path [] = []
accepted_services criteria object_path ((service, interfaces) ∷ rest) =
    let others = accepted_services criteria object_path rest in
    if other_service (some service) criteria.service
    then others
    else (object_path, service, interfaces) ∷ others

-- `process` of `FindObjectDBusQuery`.
unfoldable pub accepted_objects :
    DBusObjectEndpoint → List (Text × List (Text × List Text)) → List (Text × Text × List Text)
unfolding accepted_services
accepted_objects criteria [] = []
accepted_objects criteria ((object_path, services) ∷ rest) =
    accepted_services criteria object_path services ++ accepted_objects criteria rest

-- `checkCriteria` of `GetObjectDBusQuery`, without interfaces.
unfoldable pub get_object_check_path : Text → Text → Text → Option Text → Bool
get_object_check_path service_name own_path object_path none = false
get_object_check_path service_name own_path object_path (some service) =
    if not (service == service_name)
    then false
    else if not (own_path == object_path)
    then false
    else true

-- What the bus answers for the interfaces of an object; the mapper's exception is an empty answer.
unfoldable pub introspect_dbus_object_interfaces : Text → List (Text × List Text) → List Text
introspect_dbus_object_interfaces service [] = []
introspect_dbus_object_interfaces service ((svc, ifaces) ∷ rest) =
    let others = introspect_dbus_object_interfaces service rest in
    if svc == service then ifaces else others

-- A property, the member that it fills, and its formatters.
pub record DBusPropertySetter : Type 0 where
  pub property : Text
  pub member : Text
  pub formatters : List (Text → FieldType → FieldType)

abbrev pub DBusPropertyEndpointMap : Type 0
DBusPropertyEndpointMap = List (Text × List DBusPropertySetter)

setter_formatters : Text → List DBusPropertySetter → Option (List (Text → FieldType → FieldType))
setter_formatters property [] = none
setter_formatters property (s ∷ setters) =
    if s.property == property then some s.formatters else setter_formatters property setters

-- The formatters of the first setter of a property; `none` is the exception.
unfoldable pub get_formatters :
    DBusPropertyEndpointMap → Text → Option (List (Text → FieldType → FieldType))
unfolding setter_formatters
get_formatters [] property = none
get_formatters ((interface, setters) ∷ rest) property = elim (setter_formatters property setters) [
  | some formatters ↦ some formatters
  | none ↦ get_formatters rest property
]

apply_formatters : List (Text → FieldType → FieldType) → Text → FieldType → FieldType
apply_formatters [] property value = value
apply_formatters (formatter ∷ formatters) property value =
    apply_formatters formatters property (formatter property value)

unfoldable pub process_formatters : DBusPropertyEndpointMap → Text → FieldType → Option FieldType
unfolding get_formatters apply_formatters
process_formatters endpoints property value = elim (get_formatters endpoints property) [
  | none ↦ none
  | some formatters ↦ some (apply_formatters formatters property value)
]

abbrev pub meta_object_path : Text
meta_object_path = text "__meta_field__object_path"

abbrev pub meta_object_service : Text
meta_object_service = text "__meta_field__object_service"

-- `DBusInstance`: the state says that its properties were read.
pub record DBusInstance : Type 0 where
  pub service_name : Text
  pub object_path : Text
  pub state : Bool
  pub target_properties : DBusPropertyEndpointMap
  pub fields : Instance

-- `getHash`, with the combination of the texts' hashes as a parameter.
module _ (combined_hash : Text → Text → ℕ) where
  -- The constructor. An exception of `supplement` is only told of, and the fields behind it are not
  -- set.
  unfoldable pub new_dbus_instance : Text → Text → DBusPropertyEndpointMap → Bool → DBusInstance
  unfolding supplement
  new_dbus_instance service_name object_path target_properties state =
      let bare : Instance = record {
        hash = combined_hash service_name object_path;
        member_instances = [];
      } in
      let fields : Instance = elim (supplement meta_object_path (string object_path) bare) [
        | none ↦ bare
        | some first ↦ elim (supplement meta_object_service (string service_name) first) [
          | none ↦ first
          | some second ↦ second
        ]
      ] in
      record {
        service_name = service_name;
        object_path = object_path;
        state = state;
        target_properties = target_properties;
        fields = fields;
      }

-- The setters in turn, for the properties that the bus gave, and whether no exception came. Every
-- type of a property is one of a field's.
unfoldable pub fill_setters :
    DBusPropertyEndpointMap
    → List DBusPropertySetter
    → List (Text × FieldType)
    → Instance
    → Instance × Bool
unfolding process_formatters supplement_or_update
fill_setters endpoints [] properties i = (i, true)
fill_setters endpoints (s ∷ setters) properties i = elim (lookup s.property properties) [
  | none ↦ fill_setters endpoints setters properties i
  | some value ↦ elim (process_formatters endpoints s.property value) [
    | none ↦ (i, false)
    | some formatted ↦ elim (supplement_or_update s.member formatted i) [
      | none ↦ (i, false)
      | some next ↦ fill_setters endpoints setters properties next
    ]
  ]
]

-- `dbusPropertySetters`.
unfoldable pub dbus_property_setters : Text → DBusInstance → List DBusPropertySetter
dbus_property_setters interface d = elim (lookup interface d.target_properties) [
  | none ↦ []
  | some setters ↦ setters
]

-- `fillMembers`, of an instance whose query lives, and whether no exception came.
unfoldable pub fill_members :
    DBusPropertyEndpointMap → Text → List (Text × FieldType) → DBusInstance → DBusInstance × Bool
unfolding fill_setters dbus_property_setters
fill_members endpoints interface properties d =
    let filled = fill_setters endpoints (dbus_property_setters interface d) properties d.fields in
    (record d { fields = filled.0 }, filled.1)

-- What the bus answers for the properties of an interface; `none` is an exception.
abbrev pub QueryProperties : Type 0
QueryProperties = Text → Option (List (Text × FieldType))

unfoldable pub read_interfaces :
    DBusPropertyEndpointMap
    → QueryProperties
    → DBusPropertyEndpointMap
    → DBusInstance
    → Bool
    → DBusInstance × Bool
unfolding fill_members
read_interfaces endpoints query [] d has_error = (d, has_error)
read_interfaces endpoints query ((interface, setters) ∷ rest) d has_error = elim (query interface) [
  | none ↦ read_interfaces endpoints query rest d true
  | some properties ↦
      let filled = fill_members endpoints interface properties d in
      read_interfaces endpoints query rest filled.0 (has_error || not filled.1)
]

-- `initialize`; the query's `supplementByStaticFields` is virtual.
unfoldable pub initialize :
    DBusPropertyEndpointMap → QueryProperties → (Instance → Instance) → DBusInstance → DBusInstance
unfolding read_interfaces
initialize endpoints query supplement_by_static_fields d =
    let r =
      read_interfaces endpoints query d.target_properties (record d { state = false }) false in
    record r.0 {
      fields = supplement_by_static_fields r.0.fields;
      state = if r.1 then false else true;
    }

unfoldable pub verify_state :
    DBusPropertyEndpointMap → QueryProperties → (Instance → Instance) → DBusInstance → DBusInstance
unfolding initialize
verify_state endpoints query supplement_by_static_fields d =
    if d.state then d else initialize endpoints query supplement_by_static_fields d

-- `supplementOrUpdate` with an instance: the members of the instance's own description stay.
unfoldable pub supplement_from_dbus_members : List Text → Instance → Instance → Option Instance
unfolding supplement_or_update get_value get_field
supplement_from_dbus_members [] destination i = some i
supplement_from_dbus_members (member ∷ members) destination i =
    if starts_with (text "__meta_") member
    then supplement_from_dbus_members members destination i
    else elim (supplement_or_update member (get_value (get_field member destination)) i) [
      | none ↦ none
      | some next ↦ supplement_from_dbus_members members destination next
    ]

unfoldable pub supplement_from_dbus : Instance → Instance → Option Instance
unfolding supplement_from_dbus_members get_member_names
supplement_from_dbus destination i =
    supplement_from_dbus_members (get_member_names destination) destination i

-- The setters of the interfaces that the instance has stay.
unfoldable pub merge_endpoints :
    DBusPropertyEndpointMap → DBusPropertyEndpointMap → DBusPropertyEndpointMap
merge_endpoints [] own = own
merge_endpoints ((interface, setters) ∷ rest) own =
    merge_endpoints rest (emplace interface setters own)

unfoldable pub merge_internal_metadata : DBusInstance → DBusInstance → DBusInstance
unfolding merge_endpoints
merge_internal_metadata destination d = record d {
  target_properties = merge_endpoints destination.target_properties d.target_properties;
}

-- The setters of those interfaces that the query is configured for.
unfoldable pub searched_endpoints :
    DBusPropertyEndpointMap → List Text → DBusPropertyEndpointMap → DBusPropertyEndpointMap
searched_endpoints search [] chosen = chosen
searched_endpoints search (interface ∷ interfaces) chosen = elim (lookup interface search) [
  | none ↦ searched_endpoints search interfaces chosen
  | some setters ↦ searched_endpoints search interfaces (emplace interface setters chosen)
]
