-- ===== src/Executive/Intents/Leaves.antt =====
-- executive/executive.py: motor power after an intent, where nothing raises in a driving loop.
use droid_os.Prelude.{or_text, ℕ, String, ◌^^◌, ◌≡◌, true, Option, none, some, List, arith}
use droid_os.Executive.Tasks.{Task, new, start}
use droid_os.Executive.Droid.{Droid, World, gateway}
use droid_os.Executive.Handlers.{argument, add_step}
use droid_os.Executive.Handlers.Reports.{
  h_status, h_battery, h_temperature, h_diagnostics, h_explain, h_describe, h_list_places, h_help,
  assess, safety_status, is_stopped,
}
use droid_os.Executive.Handlers.Control.{
  h_stop, h_estop, h_cancel, h_silence, h_safe_idle, h_set_body, h_install_update, h_reboot,
  h_shutdown, stop_motion,
}
use droid_os.Executive.Handlers.Motion.{h_navigate, h_go_charge, h_inspect, drive_droid, trip_of}
use droid_os.Executive.Handlers.Records.{h_remember, h_store_place, h_forget}
use droid_os.Executive.Intents.{
  Handler, get_status, get_battery, get_temperature, diagnose, explain, describe, list_places, help,
  stop, estop, cancel, silence, safe_idle, navigate, go_charge, inspect, remember, store_place,
  forget, set_body, install_update, reboot, shutdown, handler_of, handle, handle_intent, begin_task,
  end_task, run_intent,
}
use droid_os.Executive.Intents.Power.{
  is_off, gateway_status_off, estop_engaged_now_off, assess_off, engage_estop_off, release_off,
  shutdown_off,
}
use droid_os.Executive.Drive.Release.{is_calm}
use droid_os.Executive.Intents.DriveOff.{drive_to_off}

module _ {C P : Type 0} where
  -- no call of a service in the driving loop of the intent raises
  abbrev pub Calm : World C P → Type 0
  Calm w = (k : ℕ) → is_calm (w.turns k) ≡ true

  assessed_off :
      (w : World C P) (d : Droid C)
      → is_off (gateway d) ≡ true
      → is_off (gateway (assess w d).0) ≡ true
  unfolding assess
  assessed_off w d h = ground (arith, h, assess_off w.times.first w.times.beat w.times.now d.sup.rt)

  safety_status_off :
      (w : World C P) (d : Droid C)
      → is_off (gateway d) ≡ true
      → is_off (gateway (safety_status w d).0) ≡ true
  unfolding safety_status
  safety_status_off w d h =
      ground (arith, h, gateway_status_off w.times.beat w.times.now d.sup.rt.gateway)

  is_stopped_off :
      (w : World C P) (d : Droid C)
      → is_off (gateway d) ≡ true
      → is_off (gateway (is_stopped w d).0) ≡ true
  unfolding is_stopped
  is_stopped_off w d h = ground (arith, h, estop_engaged_now_off w.times.now d.sup.rt.gateway)

  drive_droid_off :
      (w : World C P) (label : String) (d : Droid C)
      → Calm w
      → is_off (gateway d) ≡ true
      → is_off (gateway (drive_droid w label d).0) ≡ true
  unfolding drive_droid
  drive_droid_off w label d calm h = ground (
    arith,
    h,
    drive_to_off w.times.drive w.turns
        (trip_of label (add_step ("navigate to " ^^ label) (add_step "check health" d))) calm,
  )

  handle_off :
      (h : Handler) (w : World C P) (t : Task) (d : Droid C)
      → Calm w
      → is_off (gateway d) ≡ true
      → is_off (gateway (handle h w t d).0) ≡ true
  unfolding handle h_status h_battery h_temperature h_diagnostics h_explain h_describe h_list_places
      h_help h_stop h_estop h_cancel h_silence h_safe_idle h_navigate h_go_charge h_inspect
      h_remember h_store_place h_forget h_set_body h_install_update h_reboot h_shutdown stop_motion
  handle_off get_status w t d calm off =
      ground (arith, off, assessed_off w d, safety_status_off w (assess w d).0)
  handle_off get_battery w t d calm off = ground (arith, off)
  handle_off get_temperature w t d calm off = ground (arith, off)
  handle_off diagnose w t d calm off = ground (arith, off)
  handle_off explain w t d calm off =
      ground (arith, off, assessed_off w d, is_stopped_off w (assess w d).0)
  handle_off describe w t d calm off = ground (arith, off)
  handle_off list_places w t d calm off = ground (arith, off)
  handle_off help w t d calm off = ground (arith, off)
  handle_off stop w t d calm off = ground (arith, off)
  handle_off estop w t d calm off =
      ground (arith, off, engage_estop_off w.times.now "voice_or_text_command" (gateway d))
  handle_off cancel w t d calm off = ground (arith, off)
  handle_off silence w t d calm off = ground (arith, off)
  handle_off safe_idle w t d calm off = ground (arith, off, release_off w.times.now (gateway d))
  handle_off navigate w t d calm off =
      ground (arith, off, drive_droid_off w (or_text (argument "destination" t) "") d calm)
  handle_off go_charge w t d calm off =
      ground (arith, off, drive_droid_off w "charging station" d calm)
  handle_off inspect w t d calm off =
      ground (arith, off, drive_droid_off w (or_text (argument "destination" t) "") d calm)
  handle_off remember w t d calm off = ground (arith, off)
  handle_off store_place w t d calm off = ground (arith, off)
  handle_off forget w t d calm off = ground (arith, off)
  handle_off set_body w t d calm off = ground (arith, off)
  handle_off install_update w t d calm off = ground (arith, off)
  handle_off reboot w t d calm off = ground (arith, off)
  handle_off shutdown w t d calm off = ground (arith, off, shutdown_off d.sup)

  handle_intent_off :
      (o : Option Handler) (w : World C P) (t : Task) (d : Droid C)
      → Calm w
      → is_off (gateway d) ≡ true
      → is_off (gateway (handle_intent o w t d).0) ≡ true
  unfolding handle_intent
  handle_intent_off none w t d calm h = h
  handle_intent_off (some k) w t d calm h = handle_off k w t d calm h

  -- Whatever intent is run, with motor power off at the controller and at the backend before it, power
  -- is off at both after it, as long as no call of a service in the driving loop raises.
  pub run_intent_leaves_off :
      (w : World C P) (intent user : String) (arguments : List (String × String)) (d : Droid C)
      → Calm w
      → is_off (gateway d) ≡ true
      → is_off (gateway (run_intent w intent user arguments d).0) ≡ true
  unfolding run_intent end_task begin_task
  run_intent_leaves_off w intent user arguments d calm h =
      let t = new intent user arguments d.next_task in
      handle_intent_off (handler_of intent) w (start w.times.start t) (begin_task w t d) calm h
