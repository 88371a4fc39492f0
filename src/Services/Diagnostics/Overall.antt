-- ===== src/Services/Diagnostics/Overall.antt =====
-- services/diagnostics.py: what the overall level says of the parts.
use droid_os.Prelude.{
  ◌≡◌, refl, ap, ◌∙◌, Bool, not, ◌&&◌, ◌||◌, List, [], ◌∷◌, ◌++◌, some, any, any-append, contains,
  str_eq, if◌then◌else◌, arith,
}
use droid_os.Core.Models.{DiagnosticLevel, warn, error, stale}
use droid_os.Core.Models
use droid_os.Services.Diagnostics.{
  DiagnosticStatus, at_least, severity, Actuator, Sensor, Readings, Site, worst_from, worst,
  flatten, summary_of, actuator_level, actuator_statuses, sensor_level, sensor_statuses,
  battery_level, hardware_statuses, collect, summary,
}

-- at least an error
abbrev pub is_grave : DiagnosticStatus → Bool
is_grave d = at_least d.level error

worst_from-grave :
    (best : DiagnosticLevel) (items : List DiagnosticStatus)
    → at_least (worst_from best items) error ≡ (at_least best error || any is_grave items)
unfolding worst_from at_least
worst_from-grave best [] = ground arith
worst_from-grave best (d ∷ items) =
    ground (arith, worst_from-grave (if at_least best d.level then best else d.level) items)

worst-grave : (items : List DiagnosticStatus) → at_least (worst items) error ≡ any is_grave items
unfolding worst at_least severity
worst-grave [] = refl
worst-grave (d ∷ items) = worst_from-grave d.level items

module _ {F : Type 0} (le lt : F → F → Bool) (r : Readings F) where
  -- an actuator with a fault code or over the temperature of a fault
  abbrev pub is_broken : Actuator F → Bool
  is_broken a = not (str_eq a.fault_code "") || le r.motor_fault_temp a.temperature_c

  -- a required sensor that does not respond
  abbrev pub is_silent : Sensor → Bool
  is_silent s = not s.responds && contains s.id r.required_sensors

  actuators-grave :
      (actuators : List (Actuator F))
      → any is_grave (actuator_statuses le lt r actuators) ≡ any is_broken actuators
  unfolding actuator_statuses actuator_level at_least severity
  actuators-grave [] = refl
  actuators-grave (a ∷ actuators) = ground (arith, actuators-grave actuators)

  sensors-grave :
      (sensors : List Sensor)
      → any is_grave (sensor_statuses le lt r sensors) ≡ any is_silent sensors
  unfolding sensor_statuses sensor_level at_least severity
  sensors-grave [] = refl
  sensors-grave (s ∷ sensors) = ground (arith, sensors-grave sensors)

  battery-grave : at_least (battery_level le lt r) error ≡ le r.battery_percent r.critical_percent
  unfolding battery_level at_least severity
  battery-grave = ground arith

  hardware-grave : any is_grave (hardware_statuses le lt (some r)) ≡ (
      any is_broken r.actuators
      || (any is_silent r.sensors || le r.battery_percent r.critical_percent))
  unfolding hardware_statuses
  hardware-grave =
      let acts = actuator_statuses le lt r r.actuators in
      let sens = sensor_statuses le lt r r.sensors in
      ground (
        arith,
        actuators-grave r.actuators,
        sensors-grave r.sensors,
        battery-grave,
        any-append is_grave acts (
            sens
            ++ (record { name = "battery/main"; level = battery_level le lt r; hardware_id = "" }
                ∷ [])),
        any-append is_grave sens (
            record { name = "battery/main"; level = battery_level le lt r; hardware_id = "" } ∷ []),
      )

-- a droid with a backend and a body
abbrev pub equipped : {F : Type 0} → Bool → Readings F → List (List DiagnosticStatus) → Site F
equipped disk r services = record { disk_over_90 = disk; readings = some r; services = services }

module _ {F : Type 0} (le lt : F → F → Bool) where
  collect-grave :
      (disk : Bool) (r : Readings F) (services : List (List DiagnosticStatus))
      → any is_grave (collect le lt (equipped disk r services))
        ≡ (any is_grave (hardware_statuses le lt (some r)) || any is_grave (flatten services))
  unfolding collect at_least severity
  collect-grave disk r services =
      let hardware = hardware_statuses le lt (some r) in
      let robot : DiagnosticStatus = record {
        name = "robot/state";
        level = Models.ok;
        hardware_id = "";
      } in
      ground (arith, any-append is_grave hardware (robot ∷ flatten services))

  -- With a backend and a body, the overall level is ERROR or worse exactly when an actuator has a
  -- fault code or is at its fault temperature or above, a required sensor does not respond, the
  -- battery is at its critical charge or below, or a service reports ERROR or worse.
  pub overall_is_grave :
      (disk : Bool) (r : Readings F) (services : List (List DiagnosticStatus))
      → at_least (summary le lt (equipped disk r services)).overall error ≡ (
          (any (is_broken le lt r) r.actuators
            || (any (is_silent le lt r) r.sensors || le r.battery_percent r.critical_percent))
          || any is_grave (flatten services))
  unfolding summary summary_of
  overall_is_grave disk r services =
      worst-grave (collect le lt (equipped disk r services))
      ∙ (collect-grave disk r services
          ∙ ap (λ b. b || any is_grave (flatten services)) (hardware-grave le lt r))
