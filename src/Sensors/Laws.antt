-- ===== src/Sensors/Laws.antt =====
-- The state, the status and the group that a sensor is shown with (src/sensors.hpp).
use obmc_yadro_webapp.Prelude.{◌≡◌, ◌≢◌, ◌↔◌, ◌⊎◌, refl, true, false, some, ◌++◌, arith, All}
use obmc_yadro_webapp.Prelude.Text.{Text, starts_with}
use obmc_yadro_webapp.Status.{ok, warning, critical}
use obmc_yadro_webapp.Sensors.{
  Sensor, power, thermal, absent, is_on, alarm_fields_dict, first_alarm, set_status, set_group,
  set_state, set_available, set_sensor_name, power_paths, thermal_paths, group_of,
  supplement_by_static_fields,
}

-- A sensor is shown with a warning exactly if a warning alarm is on and no critical alarm is. It is
-- never shown as critical, and is shown as ok exactly if a critical alarm is on or no alarm is.
pub sensor_status_lem :
    (s : Sensor)
    → (((supplement_by_static_fields s).status ≡ warning) ↔ (
        (is_on s.critical_alarm_high ≡ false)
        × (is_on s.critical_alarm_low ≡ false)
        × ((is_on s.warning_alarm_high ≡ true) ⊎ (is_on s.warning_alarm_low ≡ true))))
      × ((supplement_by_static_fields s).status ≢ critical)
      × (((supplement_by_static_fields s).status ≡ ok) ↔ (
          (is_on s.critical_alarm_high ≡ true)
          ⊎ (is_on s.critical_alarm_low ≡ true)
          ⊎ ((is_on s.warning_alarm_high ≡ false) × (is_on s.warning_alarm_low ≡ false))))
unfolding supplement_by_static_fields set_group set_state set_status set_available set_sensor_name
    alarm_fields_dict first_alarm
sensor_status_lem s = ground arith

-- A sensor is shown as absent exactly if the bus says that it is not available: one without that
-- property is enabled.
pub sensor_state_iff :
    (s : Sensor) → ((supplement_by_static_fields s).state ≡ absent) ↔ (s.available ≡ some false)
unfolding supplement_by_static_fields set_group set_state set_status set_available set_sensor_name
    is_on
sensor_state_iff s = ground arith

-- A sensor is shown with a warning exactly if a warning alarm is on and no critical alarm is. It is
-- never shown as critical, and is shown as ok exactly if a critical alarm is on or no alarm is. It is
-- shown as absent exactly if the bus says that it is not available.
pub sensor_shown_lem :
    (s : Sensor)
    → (((supplement_by_static_fields s).status ≡ warning) ↔ (
        (is_on s.critical_alarm_high ≡ false)
        × (is_on s.critical_alarm_low ≡ false)
        × ((is_on s.warning_alarm_high ≡ true) ⊎ (is_on s.warning_alarm_low ≡ true))))
      × ((supplement_by_static_fields s).status ≢ critical)
      × (((supplement_by_static_fields s).status ≡ ok) ↔ (
          (is_on s.critical_alarm_high ≡ true)
          ⊎ (is_on s.critical_alarm_low ≡ true)
          ⊎ ((is_on s.warning_alarm_high ≡ false) × (is_on s.warning_alarm_low ≡ false))))
      × (((supplement_by_static_fields s).state ≡ absent) ↔ (s.available ≡ some false))
sensor_shown_lem s =
    let status = sensor_status_lem s in (status.0, status.1, status.2, sensor_state_iff s)

-- Every path below a voltage or power directory is of the group power, and every path below a
-- tachometer, temperature or PWM directory of the group thermal.
pub group_of_lem :
    (rest : Text)
    → All (λ directory. group_of (directory ++ rest) ≡ power) power_paths
      × All (λ directory. group_of (directory ++ rest) ≡ thermal) thermal_paths
unfolding group_of power_paths thermal_paths starts_with
group_of_lem rest = ((refl, (refl, tt)), (refl, (refl, (refl, tt))))
