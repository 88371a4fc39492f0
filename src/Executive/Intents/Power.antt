-- ===== src/Executive/Intents/Power.antt =====
-- executive/executive.py: motor power after the handlers that do not drive.
use droid_os.Prelude.{ℕ, String, ◌≡◌, Bool, true, false, not, ◌&&◌, Option, none, some, arith}
use droid_os.Backends.SafetyController
use droid_os.Services.SafetyGateway
use droid_os.Services.SafetyGateway.{Gateway, set_power}
use droid_os.Services.Supervisor.Readiness.{assess_readiness, stopped, unhealthy}
use droid_os.Services.Supervisor.Boot.{Supervisor, request_shutdown}
use droid_os.System.{Runtime}

abbrev is_on : Option Bool → Bool
is_on none = false
is_on (some b) = b

-- Power is off at the controller and at the backend.
abbrev pub is_off : Gateway → Bool
is_off g = not g.controller.power && not (is_on g.backend)

pub status_off :
    (now : ℕ) (c : SafetyController.Controller)
    → c.power ≡ false
    → (SafetyController.status now c).0.power ≡ false
unfolding SafetyController.status SafetyController.check_watchdog
status_off now c h = ground (arith, h)

pub heartbeat_off :
    (beat : ℕ) (c : SafetyController.Controller)
    → c.power ≡ false
    → (SafetyController.heartbeat beat c).power ≡ false
heartbeat_off beat c h = ground (arith, h)

pub gateway_status_off :
    (beat now : ℕ) (g : Gateway)
    → is_off g ≡ true
    → is_off (SafetyGateway.status beat now g).0 ≡ true
unfolding SafetyGateway.status
gateway_status_off beat now g h = ground (
  arith,
  h,
  heartbeat_off beat g.controller,
  status_off now (SafetyController.heartbeat beat g.controller),
)

pub estop_engaged_now_off :
    (now : ℕ) (g : Gateway)
    → is_off g ≡ true
    → is_off (SafetyGateway.estop_engaged_now now g).0 ≡ true
unfolding SafetyGateway.estop_engaged_now
estop_engaged_now_off now g h = ground (arith, h, status_off now g.controller)

pub healthy_off :
    (beat now : ℕ) (g : Gateway)
    → is_off g ≡ true
    → is_off (SafetyGateway.healthy beat now g).0 ≡ true
unfolding SafetyGateway.healthy
healthy_off beat now g h = ground (arith, h, gateway_status_off beat now g)

pub engage_estop_off :
    (now : ℕ) (why : String) (g : Gateway) → is_off (SafetyGateway.engage_estop now why g) ≡ true
unfolding SafetyGateway.engage_estop SafetyController.engage_estop
engage_estop_off now why g =
    ground (arith, status_off now (SafetyController.engage_estop why g.controller))

pub release_off :
    (now : ℕ) (g : Gateway) → is_off (SafetyGateway.release_motion_permission now g) ≡ true
unfolding SafetyGateway.release_motion_permission SafetyController.disable_power
release_off now g = ground (arith, status_off now (SafetyController.disable_power g.controller))

pub assess_off :
    (first beat now : ℕ) (rt : Runtime)
    → is_off rt.gateway ≡ true
    → is_off (assess_readiness first beat now rt).0.gateway ≡ true
unfolding assess_readiness stopped unhealthy
assess_off first beat now rt h =
    let g' = (SafetyGateway.estop_engaged_now first rt.gateway).0 in
    ground (arith, h, estop_engaged_now_off first rt.gateway, healthy_off beat now g')

pub shutdown_off :
    (s : Supervisor) → is_off s.rt.gateway ≡ true → is_off (request_shutdown s).0.rt.gateway ≡ true
unfolding request_shutdown
shutdown_off s h = ground (arith, h)
