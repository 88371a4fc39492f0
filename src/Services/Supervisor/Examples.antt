-- ===== src/Services/Supervisor/Examples.antt =====
-- The supervisor on a small droid.
use droid_os.Prelude.{
  ℕ, ◌<◌, String, ◌≡◌, refl, Bool, true, false, not, ◌&&◌, none, some, List, [], ◌∷◌, arith,
  if◌then◌else◌, ok, str_eq, All, lookup,
}
use droid_os.Core.States.{
  DroidState, initial, powered_off, ready, booting, motion_permitted, emergency_stopped, among,
  motion_allowed_from,
}
use droid_os.Services.Lifecycle
use droid_os.Services.Lifecycle.{Hooks, returned, raised, same}
use droid_os.Services.SafetyGateway
use droid_os.Services.SafetyGateway.{Gateway, set_power, document}
use droid_os.Backends.SafetyController
use droid_os.System.{Body, Readings, Managed, Runtime}
use droid_os.Services.Supervisor.Readiness.{assess_readiness, stopped, unhealthy}
use droid_os.Services.Supervisor.Readiness.Clear.{clear, assessed_motion}
use droid_os.Services.Supervisor.Activation.{requires_of, activate_with_deps}
use droid_os.Services.Supervisor.Activation.Terminates.{
  is_engaged, IsRanked, Follows, activate_with_deps-Ends,
}
use droid_os.Services.Supervisor.Boot.{Supervisor, Clocks, boot}
use droid_os.Services.Supervisor.Boot.Steps.{may_go, state_of, is_stopping}
use droid_os.Services.Supervisor.Boot.Outcome.{boot_keeps_stop}

abbrev good : Hooks
good = record {
  on_configure = returned true;
  on_activate = returned true;
  on_deactivate = returned true;
  on_cleanup = returned true;
}

abbrev managed : List String → Hooks → Managed
managed requires hooks = record { service = Lifecycle.new; requires = requires; hooks = hooks }

abbrev gateway : DroidState → Gateway
gateway s = record {
  controller = SafetyController.new 1000 0;
  token = SafetyGateway.empty;
  backend = some false;
  latch = SafetyGateway.missing;
  writable = true;
  events = [];
  machine = initial s;
}

abbrev body : Body
body = record {
  body_id = "r2-mk1";
  capabilities = record { raw = [] };
  issues = [];
  battery_motion_minimum = 20;
  required_sensors = "imu" ∷ [];
  required_actuators = "drive" ∷ [];
  sensors = "imu" ∷ [];
}

abbrev readings : Readings
readings = record {
  kind = "simulation";
  battery_percent = 78;
  actuator_names = "drive" ∷ [];
  sensor_ok = λ s. true;
  fault_codes = [];
  bus_online = none;
  connect_error = none;
}

abbrev droid : Bool → DroidState → Hooks → Runtime
droid safety s hooks = record {
  has_safety = safety;
  gateway = gateway s;
  body = some body;
  readings = readings;
  services =
      ("safety_gateway", managed [] good) ∷ ("motion", managed ("safety_gateway" ∷ []) hooks) ∷ [];
}

abbrev supervisor : Bool → DroidState → Hooks → Supervisor
supervisor safety s hooks = record {
  rt = droid safety s hooks;
  boot_report = [];
  readiness = record { state = powered_off; inhibit_reasons = []; degraded_reasons = [] };
  failed_services = [];
}

abbrev clocks : Clocks
clocks = record { safety = 10; services = 20; first = 30; beat = 40; health = 41 }

rank : String → ℕ
rank name = if str_eq "safety_gateway" name then 0 else 1

below : (n : String) → rank n < 5
unfolding rank
below n = ground arith

pick :
    (n : String) (a b : Bool)
    → All
        (λ d. rank d < (if a then 0 else 1))
        (requires_of (
          if a
          then some (managed [] good)
          else if b
          then some (managed ("safety_gateway" ∷ []) good)
          else none))
unfolding rank
pick n true b = tt
pick n false true = (omega arith, tt)
pick n false false = tt

ranked : (safety : Bool) (s : DroidState) → IsRanked rank (droid safety s good)
unfolding rank lookup
ranked safety s n = pick n (str_eq "safety_gateway" n) (str_eq "motion" n)

fresh_goes : may_go powered_off booting ≡ true
unfolding may_go
fresh_goes = refl

assessed_motion_example :
    let (rt', halted) = stopped 5 (droid true ready good) in
    let (rt'', unwell) = unhealthy 6 7 rt' in
    among (assess_readiness 5 6 7 (droid true ready good)).1.state motion_allowed_from
    ≡ (not halted && (not unwell && clear rt''))
assessed_motion_example = assessed_motion 5 6 7 (droid true ready good)

activate_with_deps-Ends_example :
    (done : Runtime × Bool) × (activate_with_deps 5 20 "motion" (droid true powered_off good)
      ≡ ok done)
    × Follows (droid true powered_off good) done.0
activate_with_deps-Ends_example =
    activate_with_deps-Ends rank 5 20 "motion" (droid true powered_off good)
      (ranked true powered_off) (below "motion")

abbrev latched : Supervisor
latched = record (supervisor true powered_off good) {
  rt = record (droid true powered_off good) {
    gateway = record (gateway powered_off) { latch = document true (some "button") };
  };
}

to_stop : is_stopping latched.rt ≡ true
unfolding same lookup
to_stop = refl

boot_keeps_stop_example :
    (s' : Supervisor) × (boot 5 clocks latched ≡ ok s')
    × (is_engaged s'.rt ≡ true)
    × (state_of s' ≡ emergency_stopped)
    × (motion_permitted s'.rt.gateway.machine ≡ false)
boot_keeps_stop_example =
    boot_keeps_stop rank 5 below clocks latched fresh_goes refl (ranked true powered_off) to_stop

abbrev half_failed : Supervisor
half_failed = record (supervisor true powered_off good) { failed_services = "motion" ∷ [] }
