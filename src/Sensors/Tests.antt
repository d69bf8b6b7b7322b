-- ===== src/Sensors/Tests.antt =====
-- The theorems on sensors at a fan with a critical alarm.
use obmc_yadro_webapp.Prelude.{◌≡◌, ◌≢◌, ◌↔◌, ◌⊎◌, true, false, none, some}
use obmc_yadro_webapp.Prelude.Text.{text}
use obmc_yadro_webapp.Status.{ok, warning, critical}
use obmc_yadro_webapp.Sensors.{Sensor, sensors, absent, is_on, supplement_by_static_fields}
use obmc_yadro_webapp.Sensors.Laws.{sensor_shown_lem}

abbrev fan : Sensor
fan = record {
  object_path = text "/xyz/openbmc_project/sensors/fan_tach/FAN1";
  critical_alarm_high = some false;
  critical_alarm_low = some true;
  warning_alarm_high = some false;
  warning_alarm_low = some true;
  available = none;
  id = text "";
  name = text "";
  status = ok;
  state = absent;
  group = sensors;
}

sensor_shown_lem_example :
    (((supplement_by_static_fields fan).status ≡ warning) ↔ (
      (is_on fan.critical_alarm_high ≡ false)
      × (is_on fan.critical_alarm_low ≡ false)
      × ((is_on fan.warning_alarm_high ≡ true) ⊎ (is_on fan.warning_alarm_low ≡ true))))
    × ((supplement_by_static_fields fan).status ≢ critical)
    × (((supplement_by_static_fields fan).status ≡ ok) ↔ (
        (is_on fan.critical_alarm_high ≡ true)
        ⊎ (is_on fan.critical_alarm_low ≡ true)
        ⊎ ((is_on fan.warning_alarm_high ≡ false) × (is_on fan.warning_alarm_low ≡ false))))
    × (((supplement_by_static_fields fan).state ≡ absent) ↔ (fan.available ≡ some false))
sensor_shown_lem_example = sensor_shown_lem fan
