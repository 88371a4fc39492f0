-- ===== src/Services/Diagnostics.antt =====
-- services/diagnostics.py: the collected statuses and their summary. Temperatures and percentages are
-- floats, of which the source uses comparisons; messages, values and stamps of a status are left out.
pub mod Overall
mod Examples
use droid_os.Prelude.{
  ℕ, String, ◌^^◌, Bool, true, false, not, ◌&&◌, ◌||◌, List, [], ◌∷◌, ◌++◌, Option, none, some,
  ◌==◌, map, keep, leb, length, contains, str_eq, if◌then◌else◌,
}
use droid_os.Core.Models.{DiagnosticLevel, warn, error, stale}
use droid_os.Core.Models

pub record DiagnosticStatus : Type 0 where
  pub name : String
  pub level : DiagnosticLevel
  pub hardware_id : String

-- `IntEnum` values of the levels
unfoldable pub severity : DiagnosticLevel → ℕ
severity Models.ok = 0
severity warn = 1
severity error = 2
severity stale = 3

-- `a >= b` of levels
unfoldable pub at_least : DiagnosticLevel → DiagnosticLevel → Bool
at_least a b = leb (severity b) (severity a)

pub record Actuator (F : Type 0) : Type 0 where
  pub name : String
  pub temperature_c : F
  pub fault_code : String
  pub comm_errors : ℕ

-- A sensor of the body, and whether its reading is fine.
pub record Sensor : Type 0 where
  pub id : String
  pub responds : Bool

-- What a backend and the body's limits say; `none` where there is no backend or no body.
pub record Readings (F : Type 0) : Type 0 where
  pub actuators : List (Actuator F)
  pub sensors : List Sensor
  pub required_sensors : List String
  pub battery_percent : F
  pub motor_warn_temp : F
  pub motor_fault_temp : F
  pub warn_percent : F
  pub critical_percent : F

-- What `collect` finds: the disk is nearly full, the hardware, and what the services report.
pub record Site (F : Type 0) : Type 0 where
  pub disk_over_90 : Bool
  pub readings : Option (Readings F)
  pub services : List (List DiagnosticStatus)

pub record Summary : Type 0 where
  pub overall : DiagnosticLevel
  pub fault_count : ℕ
  pub faults : List DiagnosticStatus

abbrev status : String → DiagnosticLevel → DiagnosticStatus
status name level = record { name = name; level = level; hardware_id = "" }

-- `max(levels, default=OK)`: the first of the highest levels
unfoldable pub worst_from : DiagnosticLevel → List DiagnosticStatus → DiagnosticLevel
worst_from best [] = best
worst_from best (d ∷ items) = worst_from (if at_least best d.level then best else d.level) items

unfoldable pub worst : List DiagnosticStatus → DiagnosticLevel
worst [] = Models.ok
worst (d ∷ items) = worst_from d.level items

unfoldable pub flatten : List (List DiagnosticStatus) → List DiagnosticStatus
flatten [] = []
flatten (reported ∷ services) = reported ++ flatten services

unfoldable pub problems_of : List DiagnosticStatus → List DiagnosticStatus
problems_of = keep (λ d. at_least d.level warn)

unfoldable pub summary_of : List DiagnosticStatus → Summary
summary_of items = record {
  overall = worst items;
  fault_count = length (problems_of items);
  faults = problems_of items;
}

-- `le a b` is `a <= b` of floats, `lt a b` is `a < b`
module _ {F : Type 0} (le lt : F → F → Bool) where
  unfoldable pub actuator_level : Readings F → Actuator F → DiagnosticLevel
  actuator_level r a =
      if not (str_eq a.fault_code "")
      then error
      else if le r.motor_fault_temp a.temperature_c
      then error
      else if le r.motor_warn_temp a.temperature_c
      then warn
      else if not (a.comm_errors == 0)
      then warn
      else Models.ok

  unfoldable pub actuator_statuses : Readings F → List (Actuator F) → List DiagnosticStatus
  actuator_statuses r [] = []
  actuator_statuses r (a ∷ actuators) =
      record { name = "actuator/" ^^ a.name; level = actuator_level r a; hardware_id = a.name }
      ∷ actuator_statuses r actuators

  unfoldable pub sensor_level : Readings F → Sensor → DiagnosticLevel
  sensor_level r s =
      if s.responds then Models.ok else if contains s.id r.required_sensors then error else warn

  unfoldable pub sensor_statuses : Readings F → List Sensor → List DiagnosticStatus
  sensor_statuses r [] = []
  sensor_statuses r (s ∷ sensors) =
      status ("sensor/" ^^ s.id) (sensor_level r s) ∷ sensor_statuses r sensors

  unfoldable pub battery_level : Readings F → DiagnosticLevel
  battery_level r =
      if le r.battery_percent r.critical_percent
      then error
      else if le r.battery_percent r.warn_percent
      then warn
      else Models.ok

  unfoldable pub hardware_statuses : Option (Readings F) → List DiagnosticStatus
  hardware_statuses none = []
  hardware_statuses (some r) =
      actuator_statuses r r.actuators
      ++ (sensor_statuses r r.sensors ++ status "battery/main" (battery_level r) ∷ [])

  unfoldable pub collect : Site F → List DiagnosticStatus
  collect site =
      status "computer/cpu" Models.ok
      ∷ status "computer/storage" (if site.disk_over_90 then warn else Models.ok)
      ∷ status "network/llm_provider" Models.ok
      ∷ (hardware_statuses site.readings
          ++ (status "robot/state" Models.ok ∷ flatten site.services))

  unfoldable pub summary : Site F → Summary
  summary site = summary_of (collect site)

  unfoldable pub problems : Site F → List DiagnosticStatus
  problems site = problems_of (collect site)

  -- `max(values, key=temperature)`: the first of the hottest
  unfoldable pub hottest_from : Actuator F → List (Actuator F) → Actuator F
  hottest_from best [] = best
  hottest_from best (a ∷ actuators) =
      hottest_from (if lt best.temperature_c a.temperature_c then a else best) actuators

  unfoldable pub hottest_level : Readings F → Actuator F → DiagnosticLevel
  hottest_level r a =
      if le r.motor_fault_temp a.temperature_c
      then error
      else if le r.motor_warn_temp a.temperature_c
      then warn
      else Models.ok

  -- With a backend and a body; without a body, the source takes 70 and 85 degrees for the limits.
  unfoldable pub hottest_actuator : Readings F → List (Actuator F) → Option DiagnosticStatus
  hottest_actuator r [] = none
  hottest_actuator r (a ∷ actuators) =
      let hottest = hottest_from a actuators in
      some (status ("actuator/" ^^ (hottest.name ^^ "/temperature")) (hottest_level r hottest))
