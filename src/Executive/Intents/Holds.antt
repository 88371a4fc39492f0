-- ===== src/Executive/Intents/Holds.antt =====
-- executive/executive.py: that the emergency stop stays engaged under every handler.
use droid_os.Prelude.{or_text, ℕ, String, ◌^^◌, ◌≡◌, true, Option, none, some, List, arith}
use droid_os.Backends.SafetyController
use droid_os.Services.SafetyGateway
use droid_os.Services.SafetyGateway.{Gateway}
use droid_os.Services.Supervisor.Boot.{Supervisor, request_shutdown}
use droid_os.Executive.Tasks.{Task, new, start}
use droid_os.Executive.Droid.{Droid, World, gateway}
use droid_os.Executive.Handlers.{argument, add_step}
use droid_os.Executive.Handlers.Reports.{
  h_status, h_battery, h_temperature, h_diagnostics, h_explain, h_describe, h_list_places, h_help,
  assess, safety_status, is_stopped,
}
use droid_os.Executive.Handlers.Control.{
  h_stop, h_estop, h_cancel, h_silence, h_safe_idle, h_set_body, h_install_update, h_reboot,
  h_shutdown, stop_motion,
}
use droid_os.Executive.Handlers.Motion.{h_navigate, h_go_charge, h_inspect, drive_droid, trip_of}
use droid_os.Executive.Handlers.Records.{h_remember, h_store_place, h_forget}
use droid_os.Executive.Intents.{
  Handler, get_status, get_battery, get_temperature, diagnose, explain, describe, list_places, help,
  stop, estop, cancel, silence, safe_idle, navigate, go_charge, inspect, remember, store_place,
  forget, set_body, install_update, reboot, shutdown, handler_of, handle, handle_intent, begin_task,
  end_task, run_intent,
}
use droid_os.Executive.Intents.Latched.{is_latched, assess_latched, drive_to_latched}

halted_latched :
    (now : ℕ) (why : String) (g : Gateway)
    → is_latched (SafetyGateway.engage_estop now why g) ≡ true
unfolding SafetyGateway.engage_estop SafetyController.engage_estop SafetyController.status
    SafetyController.check_watchdog
halted_latched now why g = ground (arith)

released_latched :
    (now : ℕ) (g : Gateway)
    → is_latched g ≡ true
    → is_latched (SafetyGateway.release_motion_permission now g) ≡ true
unfolding SafetyGateway.release_motion_permission SafetyController.disable_power
    SafetyController.status SafetyController.check_watchdog
released_latched now g h = ground (arith, h)

shutdown_latched :
    (s : Supervisor)
    → is_latched s.rt.gateway ≡ true
    → is_latched (request_shutdown s).0.rt.gateway ≡ true
unfolding request_shutdown
shutdown_latched s h = ground (arith, h)

module _ {C P : Type 0} where
  assessed_latched :
      (w : World C P) (d : Droid C)
      → is_latched (gateway d) ≡ true
      → is_latched (gateway (assess w d).0) ≡ true
  unfolding assess
  assessed_latched w d h =
      ground (arith, h, assess_latched w.times.first w.times.beat w.times.now d.sup.rt)

  safety_status_latched :
      (w : World C P) (d : Droid C)
      → is_latched (gateway d) ≡ true
      → is_latched (gateway (safety_status w d).0) ≡ true
  unfolding safety_status SafetyGateway.status SafetyController.status
      SafetyController.check_watchdog
  safety_status_latched w d h = ground (arith, h)

  is_stopped_latched :
      (w : World C P) (d : Droid C)
      → is_latched (gateway d) ≡ true
      → is_latched (gateway (is_stopped w d).0) ≡ true
  unfolding is_stopped SafetyGateway.estop_engaged_now SafetyController.status
      SafetyController.check_watchdog
  is_stopped_latched w d h = ground (arith, h)

  drive_droid_latched :
      (w : World C P) (label : String) (d : Droid C)
      → is_latched (gateway d) ≡ true
      → is_latched (gateway (drive_droid w label d).0) ≡ true
  unfolding drive_droid
  drive_droid_latched w label d h = ground (
    arith,
    h,
    drive_to_latched w.times.drive w.turns
        (trip_of label (add_step ("navigate to " ^^ label) (add_step "check health" d))),
  )

  handle_latched :
      (h : Handler) (w : World C P) (t : Task) (d : Droid C)
      → is_latched (gateway d) ≡ true
      → is_latched (gateway (handle h w t d).0) ≡ true
  unfolding handle h_status h_battery h_temperature h_diagnostics h_explain h_describe h_list_places
      h_help h_stop h_estop h_cancel h_silence h_safe_idle h_navigate h_go_charge h_inspect
      h_remember h_store_place h_forget h_set_body h_install_update h_reboot h_shutdown stop_motion
  handle_latched get_status w t d held =
      ground (arith, held, assessed_latched w d, safety_status_latched w (assess w d).0)
  handle_latched get_battery w t d held = ground (arith, held)
  handle_latched get_temperature w t d held = ground (arith, held)
  handle_latched diagnose w t d held = ground (arith, held)
  handle_latched explain w t d held =
      ground (arith, held, assessed_latched w d, is_stopped_latched w (assess w d).0)
  handle_latched describe w t d held = ground (arith, held)
  handle_latched list_places w t d held = ground (arith, held)
  handle_latched help w t d held = ground (arith, held)
  handle_latched stop w t d held = ground (arith, held)
  handle_latched estop w t d held =
      ground (arith, held, halted_latched w.times.now "voice_or_text_command" (gateway d))
  handle_latched cancel w t d held = ground (arith, held)
  handle_latched silence w t d held = ground (arith, held)
  handle_latched safe_idle w t d held =
      ground (arith, held, released_latched w.times.now (gateway d))
  handle_latched navigate w t d held =
      ground (arith, held, drive_droid_latched w (or_text (argument "destination" t) "") d)
  handle_latched go_charge w t d held =
      ground (arith, held, drive_droid_latched w "charging station" d)
  handle_latched inspect w t d held =
      ground (arith, held, drive_droid_latched w (or_text (argument "destination" t) "") d)
  handle_latched remember w t d held = ground (arith, held)
  handle_latched store_place w t d held = ground (arith, held)
  handle_latched forget w t d held = ground (arith, held)
  handle_latched set_body w t d held = ground (arith, held)
  handle_latched install_update w t d held = ground (arith, held)
  handle_latched reboot w t d held = ground (arith, held)
  handle_latched shutdown w t d held = ground (arith, held, shutdown_latched d.sup)

  handle_intent_latched :
      (o : Option Handler) (w : World C P) (t : Task) (d : Droid C)
      → is_latched (gateway d) ≡ true
      → is_latched (gateway (handle_intent o w t d).0) ≡ true
  unfolding handle_intent
  handle_intent_latched none w t d h = h
  handle_intent_latched (some k) w t d h = handle_latched k w t d h

  -- whatever intent is run, a stop that was engaged before it is engaged after it
  pub run_intent_keeps_stop :
      (w : World C P) (intent user : String) (arguments : List (String × String)) (d : Droid C)
      → is_latched (gateway d) ≡ true
      → is_latched (gateway (run_intent w intent user arguments d).0) ≡ true
  unfolding run_intent end_task begin_task
  run_intent_keeps_stop w intent user arguments d h =
      let t = new intent user arguments d.next_task in
      handle_intent_latched (handler_of intent) w (start w.times.start t) (begin_task w t d) h
