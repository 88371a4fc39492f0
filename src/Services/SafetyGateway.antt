-- ===== src/Services/SafetyGateway.antt =====
-- `src/droidos/services/safety_gateway.py`: the gateway between the brain and the safety controller.
-- The state of a `Gateway` is what its methods read and write: the controller, the permission token,
-- the power switch of the runtime's backend (`none` where there is no backend), the latch file, the
-- audited safety events (which also go to the event bus), and the system's state machine.
-- Each call of `time.time()` is an argument. The latch file is the document that it parses to; the
-- texts of reasons and log details that the source formats are values of data types.
pub mod Permission
pub mod Stop
pub mod Latch
pub mod Faults
mod Examples
use droid_os.Prelude.{
  ℕ, String, ◌^^◌, Bool, true, false, not, ◌&&◌, ◌||◌, Option, none, some, List, [], ◌∷◌, ◌++◌,
  is_nil, if◌then◌else◌,
}
use droid_os.Core.Models.{DiagnosticLevel, error}
use droid_os.Core.States.{StateMachine, emergency_stopped, force}
use droid_os.Backends.SafetyController.{Controller, SafetyControllerState}
use droid_os.Backends.SafetyController

-- `_token`: empty, or `mp-` and the milliseconds of its time
pub data Token : Type 0 where
  empty : Token
  mp : ℕ → Token

pub data Detail : Type 0 where
  text : String → Detail
  token : Token → Detail

-- One call of `audit.emit("safety", …)`: the flag says that `safety_state` is EMERGENCY_STOPPED.
pub record SafetyEvent : Type 0 where
  pub event : String
  pub detail : Detail
  pub stopped : Bool

-- The file `safety_latch_file`: absent, not to be read or not JSON, or a document with the fields
-- `estop_engaged` and `reason`, the second of which may be missing.
pub data LatchFile : Type 0 where
  missing unreadable : LatchFile
  document : Bool → Option String → LatchFile

pub record Gateway : Type 0 where
  pub controller : Controller
  pub token : Token
  pub backend : Option Bool
  pub latch : LatchFile
  pub writable : Bool  -- whether writing the latch file succeeds
  pub events : List SafetyEvent
  pub machine : StateMachine

-- Why a permission is refused, or that it is granted.
pub data Cause : Type 0 where
  estop_engaged link_unhealthy : Cause
  active_faults : List String → Cause

pub data Reason : Type 0 where
  granted not_healthy power_refused : Reason
  causes : List Cause → Reason

pub record MotionPermission : Type 0 where
  pub allowed : Bool
  pub reason : Reason
  pub token : Token

-- `self.rt.backend.set_power(on)`, where there is a backend
abbrev pub set_power : Bool → Option Bool → Option Bool
set_power on none = none
set_power on (some _) = some on

abbrev pub heartbeat : ℕ → Gateway → Gateway
heartbeat now g = record g { controller = SafetyController.heartbeat now g.controller }

-- `_log_safety_event`, which asks the controller for its status once more
unfoldable pub log_safety_event : ℕ → String → Detail → Gateway → Gateway
log_safety_event now event detail g =
    let (c, st) = SafetyController.status now g.controller in
    record g {
      controller = c;
      events =
          g.events ++ record { event = event; detail = detail; stopped = st.estop_engaged } ∷ [];
    }

unfoldable pub save_latch : Bool → String → Gateway → Gateway
save_latch estop reason g = record g {
  latch = if g.writable then document estop (some reason) else g.latch;
}

-- `data.get("reason", "persisted_latch")`
abbrev pub reason_or_default : Option String → String
reason_or_default none = "persisted_latch"
reason_or_default (some reason) = reason

abbrev pub load_document : LatchFile → Gateway → Gateway
load_document missing g = g
load_document unreadable g = g
load_document (document estop reason) g =
    if estop
    then record g {
      controller = SafetyController.engage_estop (reason_or_default reason) g.controller;
    }
    else g

unfoldable pub load_latch : Gateway → Gateway
load_latch g = load_document g.latch g

-- `_on_configure` and `_on_activate`; both return True
unfoldable pub on_configure : ℕ → Gateway → Gateway
unfolding load_latch
on_configure now g = heartbeat now (load_latch g)

unfoldable pub on_activate : ℕ → Gateway → Gateway
on_activate now g =
    let g' = heartbeat now g in
    record g' {
      controller = SafetyController.disable_power g'.controller;
      backend = set_power false g'.backend;
    }

-- `status` and `healthy`, which both contact the controller first
unfoldable pub status : (beat now : ℕ) → Gateway → Gateway × SafetyControllerState
status beat now g =
    let (c, st) = SafetyController.status now (SafetyController.heartbeat beat g.controller) in
    (record g { controller = c }, st)

unfoldable pub healthy : (beat now : ℕ) → Gateway → Gateway × Bool
unfolding status
healthy beat now g = let (g', st) = status beat now g in (g', SafetyController.healthy st)

unfoldable pub estop_engaged_now : ℕ → Gateway → Gateway × Bool
estop_engaged_now now g =
    let (c, st) = SafetyController.status now g.controller in
    (record g { controller = c }, st.estop_engaged)

unfoldable pub engage_estop : ℕ → String → Gateway → Gateway
unfolding save_latch log_safety_event
engage_estop now reason g =
    let cut = record g {
      controller = SafetyController.engage_estop reason g.controller;
      backend = set_power false g.backend;
    } in
    let logged = log_safety_event now "emergency_stop" (text reason) (save_latch true reason cut) in
    record logged { machine = force logged.machine emergency_stopped ("estop: " ^^ reason) }

unfoldable pub reset_estop : ℕ → Gateway → Gateway
unfolding save_latch log_safety_event
reset_estop now g =
    let cleared = record g { controller = SafetyController.reset_estop g.controller } in
    log_safety_event now "estop_reset" (text "recovery_complete") (save_latch false "" cleared)

unfoldable pub denial_causes : SafetyControllerState → List Cause
denial_causes st =
    (if st.estop_engaged then estop_engaged ∷ [] else [])
    ++ (if not st.alive || not st.watchdog_ok then link_unhealthy ∷ [] else [])
    ++ (if not (is_nil st.faults) then active_faults st.faults ∷ [] else [])

-- `"; ".join(reasons) or "safety controller not healthy"`
abbrev pub denial_reason : List Cause → Reason
denial_reason [] = not_healthy
denial_reason (c ∷ cs) = causes (c ∷ cs)

abbrev pub denied : Reason → MotionPermission
denied reason = record { allowed = false; reason = reason; token = empty }

-- What follows a refusal or a grant by the controller.
abbrev pub grant : (stamp logged : ℕ) → Gateway → Controller × Bool → Gateway × MotionPermission
grant stamp logged g (c, false) = (record g { controller = c }, denied power_refused)
grant stamp logged g (c, true) = (
  log_safety_event logged "motion_permission_granted" (token (mp stamp))
      (record g { controller = c; backend = set_power true g.backend; token = mp stamp }),
  record { allowed = true; reason = granted; token = mp stamp },
)

-- The four readings of the clock: at the heartbeat, the status, the token and the log.
unfoldable pub request_motion_permission :
    (beat now stamp logged : ℕ) → Gateway → Gateway × MotionPermission
unfolding status log_safety_event denial_causes
request_motion_permission beat now stamp logged g =
    let (g', st) = status beat now g in
    if not (SafetyController.healthy st)
    then (g', denied (denial_reason (denial_causes st)))
    else grant stamp logged g' (SafetyController.request_power_enable g'.controller)

abbrev log_release : ℕ → Token → Gateway → Gateway
log_release now empty g = g
log_release now (mp stamp) g =
    log_safety_event now "motion_permission_released" (token (mp stamp)) g

unfoldable pub release_motion_permission : ℕ → Gateway → Gateway
unfolding log_safety_event
release_motion_permission now g =
    let cut = record g {
      controller = SafetyController.disable_power g.controller;
      backend = set_power false g.backend;
    } in
    let logged = log_release now cut.token cut in record logged { token = empty }

unfoldable pub report_fault : ℕ → String → Gateway → Gateway
unfolding log_safety_event
report_fault now name g = log_safety_event now "fault_reported" (text name) (record g {
  controller = SafetyController.report_fault name g.controller;
  backend = set_power false g.backend;
})

unfoldable pub set_safety_link : ℕ → Bool → Gateway → Gateway
unfolding log_safety_event
set_safety_link now up g =
    let linked = record g { controller = SafetyController.set_link up g.controller } in
    if up then linked else log_safety_event now "safety_link_lost" (text "") linked

-- `diagnostics`: the level and the message of its one status
pub data Message : Type 0 where
  all_well stop_engaged link_bad : Message
  faults_active : List String → Message

unfoldable pub diagnostics : ℕ → Gateway → Gateway × DiagnosticLevel × Message
diagnostics now g =
    let (c, st) = SafetyController.status now g.controller in
    let g' = record g { controller = c } in
    if st.estop_engaged
    then (g', error, stop_engaged)
    else if not (is_nil st.faults)
    then (g', error, faults_active st.faults)
    else if not st.alive || not st.watchdog_ok
    then (g', error, link_bad)
    else (g', DiagnosticLevel.ok, all_well)
