-- ===== src/System.antt =====
-- `src/droidos/system.py`: the runtime that the services share, as far as the supervisor and the
-- broker read and write it.
use droid_os.Prelude.{ℕ, String, Bool, Option, List, lookup, insert, is_some}
use droid_os.Body.Capabilities.{Capabilities}
use droid_os.Services.Lifecycle.{Service, Hooks}
use droid_os.Services.SafetyGateway.{Gateway}

-- A loaded body. The limits are whole numbers of a fixed unit.
pub record Body : Type 0 where
  pub body_id : String
  pub capabilities : Capabilities
  pub issues : List String
  pub battery_motion_minimum : ℕ
  pub required_sensors : List String
  pub required_actuators : List String
  pub sensors : List String  -- the declared sensors, by `id`

-- What the backend answers when it is asked, at one moment.
pub record Readings : Type 0 where
  pub kind : String
  pub battery_percent : ℕ
  pub actuator_names : List String
  pub sensor_ok : String → Bool
  pub fault_codes : List (String × String)  -- `name` and `fault_code` of every actuator
  pub bus_online : Option Bool  -- absent from a backend without the method
  pub connect_error : Option String  -- the exception of `connect`, if it raises

-- A registered service: its lifecycle, the services it requires, and what its hooks do.
pub record Managed : Type 0 where
  pub service : Service
  pub requires : List String
  pub hooks : Hooks

-- `gateway` holds the state machine and the backend's power switch (`none` without a backend), also
-- where there is no safety gateway (`has_safety` is false).
pub record Runtime : Type 0 where
  pub has_safety : Bool
  pub gateway : Gateway
  pub body : Option Body
  pub readings : Readings
  pub services : List (String × Managed)

-- `_services[service.name] = service`
abbrev pub register : String → Managed → Runtime → Runtime
register name m rt = record rt { services = insert name m rt.services }

abbrev pub service : Runtime → String → Option Managed
service rt name = lookup name rt.services

unfoldable pub has : Runtime → String → Bool
has rt name = is_some (service rt name)

abbrev pub has_backend : Runtime → Bool
has_backend rt = is_some rt.gateway.backend
