-- ===== src/Services/SafetyGateway/Stop.antt =====
-- An emergency stop holds against every later call of the gateway but the reset.
use droid_os.Prelude.{
  ℕ, ◌^^◌, ◌++◌, if◌then◌else◌, String, ◌≡◌, refl, Bool, true, false, some, List, [], ◌∷◌, arith,
  All,
}
use droid_os.Core.States.{emergency_stopped, force}
use droid_os.Backends.SafetyController
use droid_os.Services.SafetyGateway.{
  Gateway, request_motion_permission, set_power, release_motion_permission, engage_estop,
  reset_estop, heartbeat, status, healthy, document, text, report_fault, set_safety_link,
  diagnostics, on_configure, on_activate, estop_engaged_now,
}
use droid_os.Services.SafetyGateway.Permission.{allowed-may_move}

-- A call of the gateway by the rest of the brain.
pub data Op : Type 0 where
  beat configure activate release check diagnose : ℕ → Op
  poll assess : (beat now : ℕ) → Op
  request : (beat now stamp logged : ℕ) → Op
  stop fault : ℕ → String → Op
  link_to : ℕ → Bool → Op
  reset : ℕ → Op

unfoldable pub apply : Op → Gateway → Gateway
unfolding on_configure on_activate release_motion_permission estop_engaged_now diagnostics status
    healthy request_motion_permission engage_estop report_fault set_safety_link reset_estop
    SafetyController.status SafetyController.engage_estop SafetyController.disable_power
    SafetyController.report_fault SafetyController.set_link SafetyController.request_power_enable
apply (beat now) g = heartbeat now g
apply (configure now) g = on_configure now g
apply (activate now) g = on_activate now g
apply (release now) g = release_motion_permission now g
apply (check now) g = (estop_engaged_now now g).0
apply (diagnose now) g = (diagnostics now g).0
apply (poll b now) g = (status b now g).0
apply (assess b now) g = (healthy b now g).0
apply (request b now stamp logged) g = (request_motion_permission b now stamp logged g).0
apply (stop now reason) g = engage_estop now reason g
apply (fault now name) g = report_fault now name g
apply (link_to now up) g = set_safety_link now up g
apply (reset now) g = reset_estop now g

unfoldable pub run : List Op → Gateway → Gateway
run [] g = g
run (op ∷ ops) g = run ops (apply op g)

abbrev pub is_reset : Op → Bool
is_reset (reset _) = true
is_reset _ = false

-- The controller is stopped, and neither it nor the backend has motor power.
pub record IsStopped (g : Gateway) : Type 0 where
  pub latched : g.controller.estop ≡ true
  pub unpowered : g.controller.power ≡ false
  pub backend_off : g.backend ≡ set_power false g.backend

apply-IsStopped :
    (op : Op) (g : Gateway) → is_reset op ≡ false → IsStopped g → IsStopped (apply op g)
unfolding apply
apply-IsStopped (reset now) g n h = cc
apply-IsStopped (configure now) g n h = ground arith
apply-IsStopped (request b now stamp logged) g n h = ground arith
apply-IsStopped op g n h = ground arith

run-IsStopped :
    (ops : List Op) (g : Gateway)
    → All (λ op. is_reset op ≡ false) ops
    → IsStopped g
    → IsStopped (run ops g)
unfolding run
run-IsStopped [] g n h = h
run-IsStopped (op ∷ ops) g n h = run-IsStopped ops (apply op g) n.1 (apply-IsStopped op g n.0 h)

-- An emergency stop cuts motor power at the controller and at the backend, forces the state machine
-- to EMERGENCY_STOPPED, writes the latch where the file can be written, and logs one event.
pub engage_estop_effect :
    (now : ℕ) (reason : String) (g : Gateway)
    → let g' = engage_estop now reason g in
      IsStopped g'
      × (g'.machine ≡ force g.machine emergency_stopped ("estop: " ^^ reason))
      × (g'.machine.state ≡ emergency_stopped)
      × (g'.latch ≡ (if g.writable then document true (some reason) else g.latch))
      × (g'.events
          ≡ g.events
            ++ record { event = "emergency_stop"; detail = text reason; stopped = true } ∷ [])
unfolding apply force
engage_estop_effect now reason g = (
  record { latched = ground arith; unpowered = ground arith; backend_off = ground arith },
  refl,
  refl,
  refl,
  ground arith,
)

pub stopped_refuses :
    (b now stamp logged : ℕ) (g : Gateway)
    → IsStopped g
    → (request_motion_permission b now stamp logged g).1.allowed ≡ false
stopped_refuses b now stamp logged g h = ground (arith, allowed-may_move b now stamp logged g)

-- After an emergency stop, whatever calls of the gateway follow, so long as none is the reset, motor
-- power stays off at the controller and at the backend, and every request for permission is refused.
pub stop_persists :
    (now : ℕ) (reason : String) (g : Gateway) (ops : List Op) (b t stamp logged : ℕ)
    → All (λ op. is_reset op ≡ false) ops
    → let g' = run ops (engage_estop now reason g) in
      (g'.controller.power ≡ false)
      × (g'.backend ≡ set_power false g'.backend)
      × ((request_motion_permission b t stamp logged g').1.allowed ≡ false)
stop_persists now reason g ops b t stamp logged n =
    let held =
      run-IsStopped ops (engage_estop now reason g) n (engage_estop_effect now reason g).0 in
    (held.unpowered, held.backend_off, stopped_refuses b t stamp logged _ held)
