-- ===== src/Formats/Chassis.antt =====
-- How the D-Bus values of src/chassis.hpp become enumerators.
use obmc_yadro_webapp.Prelude.{ℕ, Option, List, [], ◌∷◌, ◌++◌, nat_eq, text_eq}
use obmc_yadro_webapp.Prelude.Text.{Text, text}
use obmc_yadro_webapp.Entity.{FieldType}
use obmc_yadro_webapp.Formats.Base.{format_value_from_dict, raw_string, bool_eq}

pub data ChassisStateProviderPower : Type 0 where
  on off : ChassisStateProviderPower

unfoldable pub chassis_state_provider_power_to_int : ChassisStateProviderPower → ℕ
chassis_state_provider_power_to_int ChassisStateProviderPower.on = 0
chassis_state_provider_power_to_int ChassisStateProviderPower.off = 1

abbrev chassis_state_provider_power_name : Text → Text
chassis_state_provider_power_name val = text "xyz.openbmc_project.State.Chassis.PowerState." ++ val

unfoldable pub chassis_state_provider_power_dict : List (Text × ChassisStateProviderPower)
chassis_state_provider_power_dict =
    (chassis_state_provider_power_name (text "On"), ChassisStateProviderPower.on) ∷ []

unfoldable pub format_chassis_state_provider_power : FieldType → Option FieldType
unfolding format_value_from_dict chassis_state_provider_power_dict
    chassis_state_provider_power_to_int
format_chassis_state_provider_power value =
    format_value_from_dict raw_string chassis_state_provider_power_to_int
      chassis_state_provider_power_dict ChassisStateProviderPower.off value

pub data IntrusionSensorStatus : Type 0 where
  normal hardware_intrusion tampering_detected : IntrusionSensorStatus

unfoldable pub intrusion_sensor_status_to_int : IntrusionSensorStatus → ℕ
intrusion_sensor_status_to_int IntrusionSensorStatus.normal = 0
intrusion_sensor_status_to_int IntrusionSensorStatus.hardware_intrusion = 1
intrusion_sensor_status_to_int IntrusionSensorStatus.tampering_detected = 2

unfoldable pub intrusion_sensor_status_dict : List (Text × IntrusionSensorStatus)
intrusion_sensor_status_dict =
    (text "Normal", IntrusionSensorStatus.normal)
    ∷ (text "HardwareIntrusion", IntrusionSensorStatus.hardware_intrusion)
    ∷ (text "TamperingDetected", IntrusionSensorStatus.tampering_detected)
    ∷ []

unfoldable pub format_intrusion_sensor_status : FieldType → Option FieldType
unfolding format_value_from_dict intrusion_sensor_status_dict intrusion_sensor_status_to_int
format_intrusion_sensor_status value =
    format_value_from_dict raw_string intrusion_sensor_status_to_int intrusion_sensor_status_dict
      IntrusionSensorStatus.normal value

pub data ChassisType : Type 0 where
  rack_mount other : ChassisType

unfoldable pub chassis_type_to_int : ChassisType → ℕ
chassis_type_to_int ChassisType.rack_mount = 0
chassis_type_to_int ChassisType.other = 1

unfoldable pub chassis_type_dict : List (Text × ChassisType)
chassis_type_dict = (text "23", ChassisType.rack_mount) ∷ []

unfoldable pub format_chassis_type : FieldType → Option FieldType
unfolding format_value_from_dict chassis_type_dict chassis_type_to_int
format_chassis_type value =
    format_value_from_dict raw_string chassis_type_to_int chassis_type_dict ChassisType.other value
