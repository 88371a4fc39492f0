-- ===== src/Services/Supervisor/Readiness.antt =====
-- `assess_readiness` and `_settle` of `src/droidos/services/supervisor.py`. The texts of the reasons
-- are values of a data type.
pub mod Clear
pub mod Settle
use droid_os.Prelude.{
  ℕ, String, Bool, true, false, not, ◌&&◌, ◌||◌, Option, none, some, List, [], ◌∷◌, ◌++◌, is_nil,
  ltb, collect, contains, str_eq, is_substring, if◌then◌else◌, Result, ok,
}
use droid_os.Core.States.{
  DroidState, StateMachine, ready, degraded, motion_inhibited, emergency_stopped, same_state,
  can_transition, InvalidTransition, transition, force,
}
use droid_os.Services.Lifecycle
use droid_os.Services.Lifecycle.{active}
use droid_os.Services.SafetyGateway
use droid_os.System.{Body, Readings, Managed, Runtime, service, has_backend}

pub data Inhibit : Type 0 where
  estop_engaged gateway_missing controller_unhealthy bus_offline : Inhibit
  service_inactive body_issue actuator_missing sensor_silent : String → Inhibit
  battery_low : (percent minimum : ℕ) → Inhibit
  actuator_fault : (name code : String) → Inhibit

pub data Degraded : Type 0 where
  sensor_unavailable : String → Degraded

pub record Readiness : Type 0 where
  pub state : DroidState
  pub inhibit_reasons : List Inhibit
  pub degraded_reasons : List Degraded

abbrev pub motion_critical : List String
motion_critical = "safety_gateway" ∷ "state_estimator" ∷ "motion" ∷ "navigation" ∷ []

-- `rt.safety is not None and rt.safety.estop_engaged()`
unfoldable pub stopped : ℕ → Runtime → Runtime × Bool
stopped now rt =
    if rt.has_safety
    then (let (g, b) = SafetyGateway.estop_engaged_now now rt.gateway in
        (record rt { gateway = g }, b))
    else (rt, false)

-- `rt.safety is None or not rt.safety.healthy()`
unfoldable pub unhealthy : (beat now : ℕ) → Runtime → Runtime × Bool
unhealthy beat now rt =
    if rt.has_safety
    then (let (g, b) = SafetyGateway.healthy beat now rt.gateway in
        (record rt { gateway = g }, not b))
    else (rt, true)

abbrev pub not_active : Option Managed → Bool
not_active none = false
not_active (some m) = not (Lifecycle.same m.service.state active)

-- a motion-critical service that is registered and not active
unfoldable pub inactive : Runtime → String → Bool
inactive rt name = not_active (service rt name)

abbrev pub is_fatal : String → Bool
is_fatal issue = not (is_substring "placeholder" issue)

-- what the backend's answers add
unfoldable pub backend_inhibits : Body → Readings → List Inhibit
backend_inhibits b r =
    (if ltb r.battery_percent b.battery_motion_minimum
      then battery_low r.battery_percent b.battery_motion_minimum ∷ []
      else [])
    ++ (collect (λ a. not (contains a r.actuator_names)) actuator_missing b.required_actuators
        ++ (collect (λ s. not (r.sensor_ok s)) sensor_silent b.required_sensors
            ++ (collect (λ (f : String × String). not (str_eq f.1 "")) (λ f. actuator_fault f.0 f.1)
                  r.fault_codes
                ++ (elim r.bus_online [
                  | none ↦ []
                  | some online ↦ if online then [] else bus_offline ∷ []
                ]))))

abbrev pub body_inhibits : Bool → Readings → Option Body → List Inhibit
body_inhibits backend r none = []
body_inhibits backend r (some b) =
    collect is_fatal body_issue b.issues ++ (if backend then backend_inhibits b r else [])

-- optional sensors that do not respond
abbrev pub is_lost : Body → Readings → String → Bool
is_lost b r s = not (contains s b.required_sensors) && not (r.sensor_ok s)

abbrev pub body_degrades : Bool → Readings → Option Body → List Degraded
body_degrades backend r none = []
body_degrades backend r (some b) =
    if backend then collect (is_lost b r) sensor_unavailable b.sensors else []

unfoldable pub inhibits : Runtime → Bool → List Inhibit
inhibits rt unwell =
    (if unwell then controller_unhealthy ∷ [] else [])
    ++ (collect (inactive rt) service_inactive motion_critical
        ++ body_inhibits (has_backend rt) rt.readings rt.body)

unfoldable pub degrades : Runtime → List Degraded
degrades rt = body_degrades (has_backend rt) rt.readings rt.body

abbrev pub decide_readiness : List Inhibit → List Degraded → Readiness
decide_readiness (i ∷ is) ds = record {
  state = motion_inhibited;
  inhibit_reasons = i ∷ is;
  degraded_reasons = ds;
}
decide_readiness [] (d ∷ ds) = record {
  state = degraded;
  inhibit_reasons = [];
  degraded_reasons = d ∷ ds;
}
decide_readiness [] [] = record { state = ready; inhibit_reasons = []; degraded_reasons = [] }

-- The clock is read for the emergency stop's status, the heartbeat and the health status.
unfoldable pub assess_readiness : (first beat now : ℕ) → Runtime → Runtime × Readiness
assess_readiness first beat now rt =
    let (rt', halted) = stopped first rt in
    if halted
    then (
      rt',
      record {
        state = emergency_stopped;
        inhibit_reasons = estop_engaged ∷ [];
        degraded_reasons = [];
      },
    )
    else (let (rt'', unwell) = unhealthy beat now rt' in
        (rt'', decide_readiness (inhibits rt'' unwell) (degrades rt'')))

-- `_settle`: a legal transition where there is one, a forced one where there is none
unfoldable pub settle : DroidState → StateMachine → Result InvalidTransition StateMachine
settle target m =
    if same_state m.state target
    then ok m
    else if can_transition m target
    then transition m target "readiness settle"
    else ok (force m target "readiness settle")
