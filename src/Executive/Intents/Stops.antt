-- ===== src/Executive/Intents/Stops.antt =====
-- The intents that stop the droid.
use droid_os.Prelude.{ℕ, String, ◌≡◌, true, false, List, [], ◌∷◌, arith, lookup}
use droid_os.Core.States.{
  active, emergency_stopped, transition, can_transition, among, transitions, same_state,
}
use droid_os.Services.SafetyGateway.{Gateway, request_motion_permission, release_motion_permission}
use droid_os.Services.SafetyGateway.Stop.{IsStopped, engage_estop_effect, stopped_refuses}
use droid_os.Executive.Tasks.{exception}
use droid_os.Executive.Droid.{Droid, World, gateway}
use droid_os.Executive.Handlers.Control.{h_estop, h_safe_idle}
use droid_os.Executive.Intents.{handler_of, handle, handle_intent, begin_task, end_task, run_intent}
use droid_os.Executive.Intents.Latched.{is_latched}
use droid_os.Executive.Intents.Holds.{run_intent_keeps_stop}

-- One intent of a session: what is asked, by whom, and what the world answers while it runs.
pub record Asked (C P : Type 0) : Type 0 where
  pub world : World C P
  pub intent : String
  pub user : String
  pub arguments : List (String × String)

IsStopped-is_latched : (g : Gateway) → IsStopped g → is_latched g ≡ true
IsStopped-is_latched g h = ground (arith, h.latched, h.unpowered, h.backend_off)

is_latched-IsStopped : (g : Gateway) → is_latched g ≡ true → IsStopped g
is_latched-IsStopped g h = record {
  latched = ground (arith, h);
  unpowered = ground (arith, h);
  backend_off = ground (arith, h);
}

module _ {C P : Type 0} where
  unfoldable pub run_all : List (Asked C P) → Droid C → Droid C
  run_all [] d = d
  run_all (a ∷ rest) d = run_all rest (run_intent a.world a.intent a.user a.arguments d).0

  run_all-is_latched :
      (asked : List (Asked C P)) (d : Droid C)
      → is_latched (gateway d) ≡ true
      → is_latched (gateway (run_all asked d)) ≡ true
  unfolding run_all
  run_all-is_latched [] d h = h
  run_all-is_latched (a ∷ rest) d h =
      run_all-is_latched rest (run_intent a.world a.intent a.user a.arguments d).0
        (run_intent_keeps_stop a.world a.intent a.user a.arguments d h)

  -- The emergency stop intent succeeds on every droid with a safety service, whoever asks and in
  -- whatever state: it engages the stop at the controller, cuts motor power there and at the backend,
  -- and forces the state EMERGENCY_STOPPED.
  pub estop_intent_stops :
      (w : World C P) (user : String) (arguments : List (String × String)) (d : Droid C)
      → d.sup.rt.has_safety ≡ true
      → let (d', r) = run_intent w "motion.emergency_stop" user arguments d in
        (r.ok ≡ true) × (IsStopped (gateway d')) × ((gateway d').machine.state ≡ emergency_stopped)
  unfolding run_intent end_task begin_task handler_of lookup handle_intent handle h_estop
  estop_intent_stops w user arguments d safe =
      let (held, forced, halted, _, _) =
        engage_estop_effect w.times.now "voice_or_text_command" (gateway d) in
      ground (arith, safe, held, halted)

  -- After the emergency stop intent, whatever intents follow, and whatever raises in them, the stop
  -- is engaged at the controller, motor power is off there and at the backend, and every request for
  -- permission to move is refused.
  pub estop_intent_holds :
      (w : World C P) (user : String) (arguments : List (String × String)) (d : Droid C)
      (asked : List (Asked C P)) (beat now stamp logged : ℕ)
      → d.sup.rt.has_safety ≡ true
      → let g = gateway (run_all asked (run_intent w "motion.emergency_stop" user arguments d).0) in
        IsStopped g × ((request_motion_permission beat now stamp logged g).1.allowed ≡ false)
  estop_intent_holds w user arguments d asked beat now stamp logged safe =
      let d' = (run_intent w "motion.emergency_stop" user arguments d).0 in
      let held = is_latched-IsStopped _ (
        run_all-is_latched asked d'
          (IsStopped-is_latched (gateway d') (estop_intent_stops w user arguments d safe).1)) in
      (held, stopped_refuses beat now stamp logged (gateway (run_all asked d')) held)

  -- Returning to safe idle while the droid is ACTIVE fails, with the exception of the state machine,
  -- and leaves the droid ACTIVE, after it has released motor power.
  pub active_safe_idle_fails :
      (w : World C P) (user : String) (arguments : List (String × String)) (d : Droid C)
      → d.sup.rt.has_safety ≡ true
      → (gateway d).machine.state ≡ active
      → let (d', r) = run_intent w "robot.return_safe_idle" user arguments d in
        (r.ok ≡ false)
        × (r.error ≡ exception "InvalidTransition")
        × ((gateway d').machine.state ≡ active)
        × (gateway d' ≡ release_motion_permission w.times.now (gateway d))
  unfolding run_intent end_task begin_task handler_of lookup handle_intent handle h_safe_idle
      transition can_transition among transitions same_state release_motion_permission
  active_safe_idle_fails w user arguments d safe h = ground (arith, safe, h)
