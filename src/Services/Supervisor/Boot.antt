-- ===== src/Services/Supervisor/Boot.antt =====
-- `boot`, `refresh`, `request_shutdown` and `restart_failed` of `src/droidos/services/supervisor.py`.
-- `boot` and `refresh` return a raised exception alone: what they wrote before it is not kept.
pub mod Steps
pub mod Outcome
pub mod Shutdown
use droid_os.Prelude.{
  ℕ, String, Bool, true, false, not, ◌||◌, Option, none, some, List, [], ◌∷◌, ◌++◌, is_nil, keep,
  map, join, str_eq, if◌then◌else◌, Result, ok, err, ◌>>=◌, is_some,
}
use droid_os.Core.States.{
  DroidState, StateMachine, InvalidTransition, transition, value, powered_off, booting,
  hardware_check, safe_idle, motion_inhibited, shutting_down, same_state, force,
}
use mathlib.Core.List.{reverse}
use droid_os.Services.Lifecycle
use droid_os.Services.SafetyGateway
use droid_os.System.{Body, Managed, Runtime, service, has, has_backend}
use droid_os.Services.Supervisor.Readiness.{
  Readiness, gateway_missing, is_fatal, assess_readiness, settle,
}
use droid_os.Services.Supervisor.Activation.{
  Fault, illegal_move, activate_named, activate_with_deps,
}

pub record BootStep : Type 0 where
  pub name : String
  pub passed : Bool
  pub detail : String

pub record Supervisor : Type 0 where
  pub rt : Runtime
  pub boot_report : List BootStep
  pub readiness : Readiness
  pub failed_services : List String

-- The clock's readings in one boot: the gateway's activation, the services', and the assessment's.
pub record Clocks : Type 0 where
  pub safety : ℕ
  pub services : ℕ
  pub first : ℕ
  pub beat : ℕ
  pub health : ℕ

abbrev pub activation_order : List String
activation_order =
    "safety_gateway" ∷ "hardware" ∷ "diagnostics" ∷ "state_estimator" ∷ "world_model" ∷ "memory"
    ∷ "perception" ∷ "navigation" ∷ "motion" ∷ "update" ∷ "executive" ∷ "voice" ∷ "language" ∷ []

abbrev pub step : String → Bool → String → BootStep
step name passed detail = record { name = name; passed = passed; detail = detail }

abbrev pub report : BootStep → Supervisor → Supervisor
report b s = record s { boot_report = s.boot_report ++ b ∷ [] }

abbrev pub lift_machine :
    Supervisor → Result InvalidTransition StateMachine → Result Fault Supervisor
lift_machine s (ok m) =
    ok (record s { rt = record s.rt { gateway = record s.rt.gateway { machine = m } } })
lift_machine s (err e) = err (illegal_move e)

-- `state.transition(dst, reason)`
unfoldable pub move_to : DroidState → String → Supervisor → Result Fault Supervisor
move_to dst reason s = lift_machine s (transition s.rt.gateway.machine dst reason)

abbrev pub error_of : Option Managed → String
error_of none = ""
error_of (some m) = m.service.last_error

-- `svc.last_error` of a registered service
abbrev pub last_error : Runtime → String → String
last_error rt name = error_of (service rt name)

-- Steps 9 and 10.
abbrev pub report_body : Option Body → Supervisor → Supervisor
report_body none s = report (step "load_body_manifest" false "no body loaded") s
report_body (some b) s =
    let fatal = keep is_fatal b.issues in
    report (step "validate_body" (is_nil fatal) (if is_nil fatal then "ok" else join "; " fatal))
      (report (step "load_body_manifest" true b.body_id) s)

abbrev pub report_drivers : Option String → Supervisor → Supervisor
report_drivers none s = report (step "start_device_drivers" true s.rt.readings.kind) (record s {
  rt = record s.rt {
    gateway = record s.rt.gateway { backend = SafetyGateway.set_power false s.rt.gateway.backend };
  };
})
report_drivers (some e) s = report (step "start_device_drivers" false e) s

-- Step 11: `connect` switches motor power off.
unfoldable pub connect_backend : Supervisor → Supervisor
connect_backend s = if has_backend s.rt then report_drivers s.rt.readings.connect_error s else s

abbrev pub record_start : String → Supervisor → Runtime × Bool → Supervisor
record_start name s (rt, done) =
    let s' =
      report (step (join "_" ("start" ∷ name ∷ [])) done (if done then "" else last_error rt name))
        (record s { rt = rt }) in
    if done then s' else record s' { failed_services = s'.failed_services ++ name ∷ [] }

-- Steps 12 to 18, over the services that are left.
unfoldable pub start_services : (depth now : ℕ) → List String → Supervisor → Result Fault Supervisor
start_services depth now [] s = ok s
start_services depth now (name ∷ names) s =
    let skip = start_services depth now names s in
    let go = λ (done : Runtime × Bool). start_services depth now names (record_start name s done) in
    if str_eq name "safety_gateway" || not (has s.rt name)
    then skip
    else activate_with_deps depth now name s.rt >>= go

abbrev pub with_rt : Runtime → Supervisor → Supervisor
with_rt rt s = record s { rt = rt }

-- `self.readiness = self.assess_readiness()` and `self._settle(self.readiness.state)`
unfoldable pub settle_assessed : Supervisor → Runtime × Readiness → Result Fault Supervisor
settle_assessed s (rt, r) =
    lift_machine (record s { rt = rt; readiness = r }) (settle r.state rt.gateway.machine)

abbrev pub boot_without_safety : Supervisor → Result Fault Supervisor
boot_without_safety s = do
  s₁ ←
      move_to hardware_check ""
        (report (step "contact_safety_controller" false "no safety gateway") s)
  s₂ ← move_to motion_inhibited "safety gateway missing" s₁
  ok (record s₂ {
    readiness = record {
      state = motion_inhibited;
      inhibit_reasons = gateway_missing ∷ [];
      degraded_reasons = [];
    };
  })

abbrev pub is_off : Option Bool → Bool
is_off none = true
is_off (some on) = not on

-- Steps 5 to 8: activate the gateway, and look at the backend's power switch.
abbrev pub contact_safety : Supervisor → Runtime × Bool → Supervisor
contact_safety s (rt, done) =
    let power_off = is_off rt.gateway.backend in
    report
      (step "confirm_power_disabled" power_off
        (if power_off then "" else "power was unexpectedly enabled"))
      (report
        (step "contact_safety_controller" done
          (if done then "" else last_error rt "safety_gateway"))
        (report (step "start_watchdog" done "") (with_rt rt s)))

abbrev pub boot_with_safety : (depth : ℕ) → Clocks → Supervisor → Result Fault Supervisor
boot_with_safety depth t s = do
  s₁ ←
      move_to hardware_check "safety contacted"
        (contact_safety s (activate_named t.safety "safety_gateway" s.rt))
  s₂ ←
      start_services depth t.services activation_order (connect_backend (report_body s₁.rt.body s₁))
  s₃ ← move_to safe_idle "boot checks complete" s₂
  let s₄ = report (step "enter_safe_idle" true "") s₃
  s₅ ← settle_assessed s₄ (assess_readiness t.first t.beat t.health s₄.rt)
  ok (report (step "assess_readiness" true (value s₅.readiness.state)) s₅)

abbrev pub first_steps : List BootStep
first_steps =
    step "verify_os_image" true "signature verification (stub in reference)"
    ∷ step "start_kernel" true ""
    ∷ step "mount_readonly_rootfs" true ""
    ∷ step "start_logging" true ""
    ∷ []

unfoldable pub boot : (depth : ℕ) → Clocks → Supervisor → Result Fault Supervisor
boot depth t s = do
  s₁ ← move_to booting "boot start" (record s { boot_report = [] })
  let s₂ = record s₁ { boot_report = first_steps }
  if s.rt.has_safety then boot_with_safety depth t s₂ else boot_without_safety s₂

unfoldable pub refresh : (first beat now : ℕ) → Supervisor → Result Fault Supervisor
refresh first beat now s = settle_assessed s (assess_readiness first beat now s.rt)

-- The loop of `request_shutdown` over the services that are left: the first exception ends it, and
-- the services behind stay as they are.
unfoldable pub shutdown_all : List (String × Managed) → List (String × Managed) × Option String
shutdown_all [] = ([], none)
shutdown_all ((name, m) ∷ rest) =
    let (s, raised) = Lifecycle.shutdown m.hooks m.service in
    let later = shutdown_all rest in
    let this : String × Managed = (name, record m { service = s }) in
    elim raised [ some e ↦ (this ∷ rest, some e) | none ↦ (this ∷ later.0, later.1) ]

abbrev pub with_machine : StateMachine → Supervisor → Supervisor
with_machine m s = record s { rt = record s.rt { gateway = record s.rt.gateway { machine = m } } }

abbrev pub finish_shutdown : Option String → Supervisor → Supervisor × Option String
finish_shutdown (some e) s = (s, some e)
finish_shutdown none s =
    let off = record s {
      rt = record s.rt {
        gateway = record s.rt.gateway {
          backend = SafetyGateway.set_power false s.rt.gateway.backend;
        };
      };
    } in
    (with_machine (force off.rt.gateway.machine powered_off "shutdown complete") off, none)

-- `request_shutdown`, with the exception that leaves it, if any; the writes before it are kept.
unfoldable pub request_shutdown : Supervisor → Supervisor × Option String
request_shutdown s =
    let m = s.rt.gateway.machine in
    let begun =
      with_machine
        (if same_state m.state shutting_down then m else force m shutting_down "shutdown requested")
        s in
    let (services, raised) = shutdown_all (reverse s.rt.services) in
    finish_shutdown raised (record begun { rt = record begun.rt { services = reverse services } })
