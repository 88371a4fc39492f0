-- ===== src/Executive/Intents/Latched.antt =====
-- executive/executive.py: the emergency stop, and the power that it cut, under the handlers of intents.
use droid_os.Prelude.{ℕ, ◌≡◌, Bool, true, false, ◌&&◌, arith, ap, ◌∙◌}
use droid_os.Backends.SafetyController
use droid_os.Services.SafetyGateway
use droid_os.Services.SafetyGateway.{Gateway}
use droid_os.Services.Supervisor.Readiness.{assess_readiness, stopped, unhealthy}
use droid_os.System.{Runtime}
use droid_os.Executive.BehaviourTree.{Answer, returned, raised, tick}
use droid_os.Executive.Drive.{Trip, Turn, Clocks, acquire, tree, finish, drive_to}
use droid_os.Executive.Drive.Stays.{run_once, tree_settles, tree_refused}
use droid_os.Executive.Intents.Power.{is_off}

-- The controller's emergency stop is engaged, and power is off at the controller and at the backend.
abbrev pub is_latched : Gateway → Bool
is_latched g = g.controller.estop && is_off g

status_latched :
    (now : ℕ) (c : SafetyController.Controller) → (SafetyController.status now c).0.estop ≡ c.estop
unfolding SafetyController.status SafetyController.check_watchdog
status_latched now c = ground (arith)

pub assess_latched :
    (first beat now : ℕ) (rt : Runtime)
    → is_latched rt.gateway ≡ true
    → is_latched (assess_readiness first beat now rt).0.gateway ≡ true
unfolding assess_readiness stopped unhealthy SafetyGateway.healthy SafetyGateway.status
    SafetyGateway.estop_engaged_now SafetyController.status SafetyController.check_watchdog
assess_latched first beat now rt h = ground (arith, h)

module _ {C : Type 0} where
  refused_latched :
      (c : Clocks) (t : Trip C)
      → is_latched t.gateway ≡ true
      → ((acquire c t).0.held ≡ false) × (is_latched (acquire c t).0.gateway ≡ true)
  unfolding acquire SafetyGateway.request_motion_permission SafetyController.status
      SafetyController.request_power_enable SafetyController.check_watchdog
  refused_latched c t h = (ground (arith, h), ground (arith, h))

  finish_latched :
      (c : Clocks) (t : Trip C) (a : Answer)
      → is_latched t.gateway ≡ true
      → is_latched (finish c t a).0.gateway ≡ true
  unfolding finish SafetyGateway.release_motion_permission SafetyController.disable_power
      SafetyController.status SafetyController.check_watchdog
  finish_latched c t (raised e) h = h
  finish_latched c t (returned st) h = ground (arith, h)

  -- a drive of a stopped droid ends with the stop engaged and power off, whatever raises
  pub drive_to_latched :
      (c : Clocks) (turns : ℕ → Turn C) (t : Trip C)
      → is_latched t.gateway ≡ true
      → is_latched (drive_to c turns t).0.gateway ≡ true
  unfolding drive_to
  drive_to_latched c turns t h =
      let once = run_once 9999 (tree c turns) t (tree_settles c turns t) in
      let (t', a) = tick (tree c turns) t in
      let (refused, held) = refused_latched c t h in
      rw once (
        finish_latched c t' a
          (ap (λ s. is_latched s.gateway) (tree_refused c turns t refused) ∙ held))
