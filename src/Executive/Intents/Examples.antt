-- ===== src/Executive/Intents/Examples.antt =====
-- What a droid is asked.
use droid_os.Prelude.{ℕ, String, ◌≡◌, refl, true, false, none, List, [], ◌∷◌, ◌++◌, if◌then◌else◌}
use droid_os.Core.States.{ready, active}
use droid_os.Services.SafetyGateway
use droid_os.Services.SafetyGateway.Stop.{IsStopped}
use droid_os.Executive.Tasks.{Task, succeeded, failed, exception}
use droid_os.Executive.Droid.{gateway}
use droid_os.Executive.Intents.{run_intent, handler_of, handle_intent, handle, begin_task, end_task}
use droid_os.Prelude.{lookup}
use droid_os.Executive.Handlers.Motion.{h_navigate, drive_droid}
use droid_os.System.{has}
use droid_os.Services.Navigation.{resolve}
use droid_os.Services.WorldModel.{get_place, norm}
use droid_os.Executive.Drive.{drive_to, tree, acquire, enter_active, drive, finish}
use droid_os.Executive.BehaviourTree.{tick, tick_all, run}
use droid_os.Core.States.{transition, can_transition, among, transitions, same_state}
use droid_os.Backends.SafetyController
use droid_os.Executive.Intents.Power.{is_off}
use droid_os.Executive.Intents.History.{run_intent_recorded}
use droid_os.Executive.Intents.Leaves.{run_intent_leaves_off}
use droid_os.Executive.Intents.Stops.{Asked, run_all, estop_intent_holds, active_safe_idle_fails}
use droid_os.Executive.Intents.Fixture.{droid, around}

abbrev to_lab : List (String × String)
to_lab = ("destination", "lab") ∷ []

run_intent_recorded_example :
    let (d', r) = run_intent around "navigation.navigate_to" "luke" to_lab (droid ready) in
    (t : Task) × (d'.history ≡ [] ++ t ∷ [])
    × (t.intent ≡ "navigation.navigate_to")
    × (t.user ≡ "luke")
    × (t.task_id ≡ 1)
    × (t.state ≡ (if r.ok then succeeded else failed))
    × (r.task_id ≡ 1)
    × (d'.next_task ≡ 2)
    × (d'.current ≡ none)
run_intent_recorded_example =
    run_intent_recorded around "navigation.navigate_to" "luke" to_lab (droid ready)

run_intent_leaves_off_example :
    is_off (gateway (run_intent around "navigation.navigate_to" "luke" to_lab (droid ready)).0)
    ≡ true
run_intent_leaves_off_example =
    run_intent_leaves_off around "navigation.navigate_to" "luke" to_lab (droid ready) (λ k. refl)
      refl

abbrev drive_again : List (Asked ℕ ℕ)
drive_again =
    record { world = around; intent = "navigation.navigate_to"; user = "luke"; arguments = to_lab }
    ∷ []

estop_intent_holds_example :
    let g =
      gateway (
        run_all drive_again
          (run_intent around "motion.emergency_stop" "jawa" [] (droid ready)).0) in
    IsStopped g × ((SafetyGateway.request_motion_permission 30 31 32 33 g).1.allowed ≡ false)
estop_intent_holds_example =
    estop_intent_holds around "jawa" [] (droid ready) drive_again 30 31 32 33 refl

active_safe_idle_fails_example :
    let (d', r) = run_intent around "robot.return_safe_idle" "luke" [] (droid active) in
    (r.ok ≡ false)
    × (r.error ≡ exception "InvalidTransition")
    × ((gateway d').machine.state ≡ active)
    × (gateway d' ≡ SafetyGateway.release_motion_permission 4 (gateway (droid active)))
active_safe_idle_fails_example = active_safe_idle_fails around "luke" [] (droid active) refl refl

-- the drive of the witnesses holds the permission and arrives
reached_lab : (run_intent around "navigation.navigate_to" "luke" to_lab (droid ready)).1.ok ≡ true
unfolding run_intent handler_of lookup handle_intent handle h_navigate has resolve get_place norm
    drive_droid drive_to tick tick_all run tree acquire enter_active drive finish transition
    can_transition among transitions same_state begin_task end_task
    SafetyGateway.request_motion_permission SafetyGateway.release_motion_permission
    SafetyController.status SafetyController.request_power_enable SafetyController.disable_power
    SafetyController.check_watchdog
reached_lab = refl
