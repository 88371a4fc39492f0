-- ===== src/Services/SafetyGateway/Permission.antt =====
-- `request_motion_permission`: when it grants, and what a grant and a refusal change.
use droid_os.Prelude.{
  ℕ, ◌+◌, ◌≤◌, ◌≡◌, Bool, true, false, not, ◌&&◌, [], ◌∷◌, ◌++◌, arith, is_nil, leb,
}
use droid_os.Backends.SafetyController.{Controller}
use droid_os.Backends.SafetyController.Invariant.{is_nil-sorted}
use droid_os.Backends.SafetyController
use droid_os.Services.SafetyGateway.{
  Gateway, empty, mp, token, granted, request_motion_permission, set_power,
}

-- What the controller must be for motion to be permitted.
abbrev pub may_move : (beat now : ℕ) → Controller → Bool
may_move beat now c =
    c.alive && c.link && not c.estop && is_nil c.faults && leb now (beat + c.watchdog_timeout)

-- Permission is granted exactly when the controller is alive and linked, has neither an emergency
-- stop nor a fault, and answers within the watchdog's timeout of the heartbeat.
pub allowed-may_move :
    (beat now stamp logged : ℕ) (g : Gateway)
    → (request_motion_permission beat now stamp logged g).1.allowed ≡ may_move beat now g.controller
unfolding request_motion_permission SafetyController.status SafetyController.request_power_enable
allowed-may_move beat now stamp logged g = ground (arith, is_nil-sorted g.controller.faults)

-- A grant that is logged within the timeout has switched on motor power at the controller and at
-- the backend, and has issued the token, which the gateway holds.
pub grant_powers :
    (beat now stamp logged : ℕ) (g : Gateway)
    → may_move beat now g.controller ≡ true
    → logged ≤ beat + g.controller.watchdog_timeout
    → let (g', p) = request_motion_permission beat now stamp logged g in
      (g'.controller.power ≡ true)
      × (g'.backend ≡ set_power true g.backend)
      × (g'.token ≡ mp stamp)
      × (p ≡ record { allowed = true; reason = granted; token = mp stamp })
      × (g'.events
          ≡ g.events
            ++ record {
              event = "motion_permission_granted";
              detail = token (mp stamp);
              stopped = false;
            }
              ∷ [])
unfolding request_motion_permission SafetyController.status SafetyController.request_power_enable
grant_powers beat now stamp logged g h l = ground (arith, is_nil-sorted g.controller.faults)

-- A refusal issues no token, switches nothing on, and leaves the backend, the held token, the log,
-- the latch file and the state machine as they were.
pub refusal_keeps :
    (beat now stamp logged : ℕ) (g : Gateway)
    → may_move beat now g.controller ≡ false
    → let (g', p) = request_motion_permission beat now stamp logged g in
      (p.allowed ≡ false)
      × (p.token ≡ empty)
      × (g'.controller.power ≡ true → g.controller.power ≡ true)
      × (g'.backend ≡ g.backend)
      × (g'.token ≡ g.token)
      × (g'.events ≡ g.events)
      × (g'.latch ≡ g.latch)
      × (g'.machine ≡ g.machine)
unfolding request_motion_permission SafetyController.status SafetyController.request_power_enable
refusal_keeps beat now stamp logged g h = ground (arith, is_nil-sorted g.controller.faults)
