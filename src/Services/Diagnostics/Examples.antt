-- ===== src/Services/Diagnostics/Examples.antt =====
-- services/diagnostics.py: a droid with a hot motor and a silent sensor, in whole degrees.
use droid_os.Prelude.{ℕ, false, ◌≡◌, ◌||◌, [], ◌∷◌, leb, ltb, any}
use droid_os.Core.Models.{error}
use droid_os.Services.Diagnostics.{Readings, summary, at_least, flatten}
use droid_os.Services.Diagnostics.Overall.{
  equipped, is_broken, is_silent, is_grave, overall_is_grave,
}

abbrev readings : Readings ℕ
readings = record {
  actuators =
      record { name = "left_knee"; temperature_c = 90; fault_code = ""; comm_errors = 0 } ∷ [];
  sensors = record { id = "imu0"; responds = false } ∷ [];
  required_sensors = "imu0" ∷ [];
  battery_percent = 80;
  motor_warn_temp = 70;
  motor_fault_temp = 85;
  warn_percent = 30;
  critical_percent = 10;
}

overall_is_grave_example : at_least (summary leb ltb (equipped false readings [])).overall error ≡ (
    (any (is_broken leb ltb readings) readings.actuators
      || (any (is_silent leb ltb readings) readings.sensors || leb 80 10))
    || any is_grave (flatten []))
overall_is_grave_example = overall_is_grave leb ltb false readings []
