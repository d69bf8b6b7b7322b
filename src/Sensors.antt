-- ===== src/Sensors.antt =====
-- What the sensors' query makes of a sensor's properties (src/sensors.hpp). An alarm or an
-- availability that the bus has no Boolean for is `none`.
pub mod Laws
mod Tests
use obmc_yadro_webapp.Prelude.{
  ◌≡◌, Bool, true, false, Option, none, some, List, [], ◌∷◌, ◌++◌, if◌then◌else◌, Eq, ◌==◌, text_eq,
  any_of, lookup,
}
use obmc_yadro_webapp.Prelude.Text.{Text, text, starts_with}
use obmc_yadro_webapp.Utils.{get_name_from_last_segment_object_path}
use obmc_yadro_webapp.Status.{Status, ok, warning}

pub data Group : Type 0 where
  power thermal sensors : Group

pub data SensorUnit : Type 0 where
  temperature voltage rotational altitude : SensorUnit
  current power_unit energy_joules percent unkown : SensorUnit

pub data State : Type 0 where
  enabled absent : State

-- The fields that the query computes from, and those that it sets.
pub record Sensor : Type 0 where
  pub object_path : Text
  pub critical_alarm_high : Option Bool
  pub critical_alarm_low : Option Bool
  pub warning_alarm_high : Option Bool
  pub warning_alarm_low : Option Bool
  pub available : Option Bool
  pub id : Text
  pub name : Text
  pub status : Status
  pub state : State
  pub group : Group

-- `instance->getField(value)->getBoolValue()`, with an exception as false.
unfoldable pub is_on : Option Bool → Bool
is_on none = false
is_on (some value) = value

unfoldable pub set_sensor_name : Sensor → Sensor
set_sensor_name s = record s {
  id = get_name_from_last_segment_object_path s.object_path false;
  name = get_name_from_last_segment_object_path s.object_path true;
}

-- The alarms by status, in the order of a map: of the statuses' numbers.
unfoldable pub alarm_fields_dict : Sensor → List (Status × List (Option Bool))
alarm_fields_dict s =
    (ok, s.critical_alarm_high ∷ s.critical_alarm_low ∷ [])
    ∷ (warning, s.warning_alarm_high ∷ s.warning_alarm_low ∷ [])
    ∷ []

-- The first status one of whose alarms is on.
unfoldable pub first_alarm : List (Status × List (Option Bool)) → Status → Status
unfolding is_on
first_alarm [] status = status
first_alarm ((alarm, fields) ∷ rest) status =
    if any_of is_on fields then alarm else first_alarm rest status

unfoldable pub set_status : Sensor → Sensor
unfolding alarm_fields_dict first_alarm
set_status s = record s { status = first_alarm (alarm_fields_dict s) ok }

unfoldable pub power_paths : List Text
power_paths =
    text "/xyz/openbmc_project/sensors/voltage/" ∷ text "/xyz/openbmc_project/sensors/power/" ∷ []

unfoldable pub thermal_paths : List Text
thermal_paths =
    text "/xyz/openbmc_project/sensors/fan_tach/"
    ∷ text "/xyz/openbmc_project/sensors/temperature/"
    ∷ text "/xyz/openbmc_project/sensors/fan_pwm/"
    ∷ []

-- `GroupParser`.
unfoldable pub group_of : Text → Group
unfolding power_paths thermal_paths
group_of object_path =
    if any_of (λ value. starts_with value object_path) power_paths
    then power
    else if any_of (λ value. starts_with value object_path) thermal_paths
    then thermal
    else sensors

unfoldable pub set_group : Sensor → Sensor
set_group s = record s { group = group_of s.object_path }

unfoldable pub set_state : Sensor → Sensor
unfolding is_on
set_state s = record s { state = if is_on s.available then enabled else absent }

-- A sensor without the property counts as available.
unfoldable pub set_available : Sensor → Sensor
set_available s = record s { available = elim s.available [ none ↦ some true | some a ↦ some a ] }

-- The natural reading, a conversion of a floating-point number, is left out.
unfoldable pub supplement_by_static_fields : Sensor → Sensor
unfolding set_sensor_name set_available set_status set_state set_group
supplement_by_static_fields s =
    set_group (set_state (set_status (set_available (set_sensor_name s))))

long_dbus_enum : Text → Text
long_dbus_enum enum = text "xyz.openbmc_project.Sensor.Value.Unit." ++ enum

unfoldable pub units : List (Text × SensorUnit)
unfolding long_dbus_enum
units =
    (long_dbus_enum (text "DegreesC"), temperature)
    ∷ (long_dbus_enum (text "Volts"), voltage)
    ∷ (long_dbus_enum (text "RPMS"), rotational)
    ∷ (long_dbus_enum (text "Meters"), altitude)
    ∷ (long_dbus_enum (text "Amperes"), current)
    ∷ (long_dbus_enum (text "Watts"), power_unit)
    ∷ (long_dbus_enum (text "Joules"), energy_joules)
    ∷ (long_dbus_enum (text "Percent"), percent)
    ∷ []

-- `FormatUnit`, for a value that is a string.
unfoldable pub format_unit : Text → SensorUnit
unfolding units
format_unit value = elim (lookup value units) [ none ↦ unkown | some u ↦ u ]

abbrev inventory_slug_list : List Text
inventory_slug_list = text "inventory" ∷ text "cpu" ∷ []

-- `FormatAssociatedInventory`: the last segment of the first association whose purpose is listed.
-- An association is its purpose, its backward name and its inventory path.
unfoldable pub format_associated_inventory : List (Text × Text × Text) → Text
format_associated_inventory [] = text "N/A"
format_associated_inventory ((purpose, backward, inventory) ∷ rest) =
    if any_of (λ slug. slug == purpose) inventory_slug_list
    then get_name_from_last_segment_object_path inventory false
    else format_associated_inventory rest
