-- ===== src/Executive/Handlers/Control.antt =====
-- The handlers that stop the droid, and the administrative ones.
use droid_os.Prelude.{
  or_text, suc, String, true, ◌||◌, Option, none, some, if◌then◌else◌, Result, ok, err,
}
use droid_os.Core.States.{
  ready, active, degraded, safe_idle, same_state, StateMachine, InvalidTransition, transition,
}
use droid_os.Services.SafetyGateway
use droid_os.Services.Update
use droid_os.Services.Update.{Update}
use droid_os.Services.Supervisor.Boot.{Supervisor, request_shutdown}
use droid_os.System.{has, has_backend}
use droid_os.Executive.Tasks.{
  Task, stop_sent, stop_engaged, cancel_sent, silence_kept, reboot_note, nothing, state_now,
  selection, update_status, updated, exception, plain,
}
use droid_os.Executive.Droid.{Droid, World, gateway, with_gateway}
use droid_os.Executive.Handlers.{Reply, success, failure, raised, argument, given}

-- `rt.motion.stop()`, or the exception where there is no motion service
unfoldable pub stop_motion : {C : Type 0} → Droid C → Reply C → Droid C × Reply C
stop_motion d r =
    if has d.sup.rt "motion"
    then ((if has_backend d.sup.rt then record d { zero_commands = suc d.zero_commands } else d), r)
    else (d, raised "AttributeError")

abbrev idled : {C : Type 0} → Droid C → Result InvalidTransition StateMachine → Droid C × Reply C
idled d (ok m) = (
  with_gateway (record (gateway d) { machine = m }) d,
  success "robot.return_safe_idle" (state_now m.state),
)
idled d (err e) = (d, raised "InvalidTransition")

abbrev selected : {C : Type 0} → Result String String → Reply C
selected (ok s) = success "system.set_body" (selection s)
selected (err e) = failure "system.set_body" nothing (exception e)

-- whether `install` answers with `ok`, and the error of the task's result
abbrev update_reply : {C : Type 0} → Update.Reply → Reply C
update_reply (Update.Reply.installed_in slot v) =
    success "system.install_update" (updated (Update.Reply.installed_in slot v))
update_reply (Update.Reply.failed why) =
    failure "system.install_update" (updated (Update.Reply.failed why)) (plain why)
update_reply (Update.Reply.active slot) =
    success "system.install_update" (updated (Update.Reply.active slot))
update_reply (Update.Reply.rolled_back_to slot) =
    failure "system.install_update" (updated (Update.Reply.rolled_back_to slot))
      (plain "install failed")

abbrev after_shutdown : {C : Type 0} → Droid C → Supervisor × Option String → Droid C × Reply C
after_shutdown d (s, some e) = (record d { sup = s }, raised e)
after_shutdown d (s, none) =
    (record d { sup = s }, success "system.shutdown" (state_now s.rt.gateway.machine.state))

module _ {C P : Type 0} where
  unfoldable pub h_stop : World C P → Task → Droid C → Droid C × Reply C
  unfolding stop_motion
  h_stop w t d = stop_motion d (success "motion.stop" stop_sent)

  unfoldable pub h_estop : World C P → Task → Droid C → Droid C × Reply C
  h_estop w t d =
      if d.sup.rt.has_safety
      then (
        with_gateway (SafetyGateway.engage_estop w.times.now "voice_or_text_command" (gateway d)) d,
        success "motion.emergency_stop" stop_engaged,
      )
      else (d, raised "AttributeError")

  unfoldable pub h_cancel : World C P → Task → Droid C → Droid C × Reply C
  unfolding stop_motion
  h_cancel w t d = stop_motion (record d { cancel = true }) (success "task.cancel" cancel_sent)

  unfoldable pub h_silence : World C P → Task → Droid C → Droid C × Reply C
  h_silence w t d = (d, success "voice.silence" silence_kept)

  unfoldable pub h_safe_idle : World C P → Task → Droid C → Droid C × Reply C
  h_safe_idle w t d =
      let d' =
        if d.sup.rt.has_safety
        then with_gateway (SafetyGateway.release_motion_permission w.times.now (gateway d)) d
        else d in
      let m = d'.sup.rt.gateway.machine in
      if same_state m.state ready || (same_state m.state active || same_state m.state degraded)
      then idled d' (transition m safe_idle "operator requested safe idle")
      else (d', success "robot.return_safe_idle" (state_now m.state))

  unfoldable pub h_set_body : World C P → Task → Droid C → Droid C × Reply C
  h_set_body w t d =
      (d, selected (w.set_active (or_text (argument "body_id" t) "") (argument "backend" t)))

  abbrev with_update : World C P → Droid C → Option Update → Option String → Droid C × Reply C
  with_update w d none b =
      (d, failure "system.install_update" nothing (plain "update service unavailable"))
  with_update w d (some u) none = (d, success "system.install_update" (update_status u.uinfo))
  with_update w d (some u) (some b) =
      let (u', r) = Update.install w.digest (w.bundle b) u in
      (record d { update = some u' }, update_reply r)

  unfoldable pub h_install_update : World C P → Task → Droid C → Droid C × Reply C
  h_install_update w t d = with_update w d d.update (given (argument "bundle" t))

  unfoldable pub h_reboot : World C P → Task → Droid C → Droid C × Reply C
  h_reboot w t d = (d, success "system.request_reboot" reboot_note)

  unfoldable pub h_shutdown : World C P → Task → Droid C → Droid C × Reply C
  h_shutdown w t d =
      if d.has_supervisor
      then after_shutdown d (request_shutdown d.sup)
      else (d, success "system.shutdown" (state_now (gateway d).machine.state))
