-- ===== src/Core/States/Examples.antt =====
-- The state machine on concrete calls.
use droid_os.Prelude.{◌≡◌, refl, [], ◌∷◌, List, String, true}
use droid_os.Core.States.{
  DroidState, initial, emergency_stopped, recovery, safe_idle, ready, active, booting,
  motion_permitted, transition,
}
use droid_os.Core.States.Runs.{Call, asked, forced, perform, perform_all}
use droid_os.Core.States.Recovery.{
  no_motion_without_recovery, ask_all, entered, recovery_gates, readiness_gates,
}

abbrev recover : List (DroidState × String)
recover = (ready, "too early") ∷ (recovery, "reset") ∷ (safe_idle, "idle") ∷ (ready, "settle") ∷ []

recover_runs : (perform_all (initial emergency_stopped) (ask_all recover)).state ≡ ready
unfolding perform_all perform transition
recover_runs = refl

no_motion_without_recovery_example :
    let m = perform_all (initial emergency_stopped) (ask_all recover) in
    (entered recovery_gates m ≡ true) × (entered readiness_gates m ≡ true)
unfolding perform_all perform transition motion_permitted
no_motion_without_recovery_example = no_motion_without_recovery recover refl

abbrev calls : List Call
calls = asked booting "boot" ∷ asked active "illegal" ∷ forced emergency_stopped "estop: x" ∷ []
