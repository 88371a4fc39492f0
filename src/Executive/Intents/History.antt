-- ===== src/Executive/Intents/History.antt =====
-- What `run_intent` records.
use droid_os.Prelude.{
  ℕ, suc, String, ◌≡◌, refl, Option, none, some, List, [], ◌∷◌, ◌++◌, arith, ap, if◌then◌else◌,
}
use droid_os.Executive.Tasks.{Task, TaskResult, succeeded, failed, new, start, finish}
use droid_os.Executive.Droid.{Droid, World}
use droid_os.Executive.Handlers.{steps_of}
use droid_os.Executive.Handlers.Reports.{
  h_status, h_battery, h_temperature, h_diagnostics, h_explain, h_describe, h_list_places, h_help,
  assess, safety_status, is_stopped,
}
use droid_os.Executive.Handlers.Control.{
  h_stop, h_estop, h_cancel, h_silence, h_safe_idle, h_set_body, h_install_update, h_reboot,
  h_shutdown, stop_motion,
}
use droid_os.Executive.Handlers.Motion.{h_navigate, h_go_charge, h_inspect, drive_droid}
use droid_os.Executive.Handlers.Records.{h_remember, h_store_place, h_forget}
use droid_os.Executive.Intents.{
  Handler, get_status, get_battery, get_temperature, diagnose, explain, describe, list_places, help,
  stop, estop, cancel, silence, safe_idle, navigate, go_charge, inspect, remember, store_place,
  forget, set_body, install_update, reboot, shutdown, handler_of, handle, handle_intent, begin_task,
  end_task, run_intent, final_state, result_of, or_task,
}

-- what makes a task that task
abbrev pub identity : Option Task → Option (String × String × ℕ)
identity none = none
identity (some t) = some (t.intent, t.user, t.task_id)

-- The history and the counter are the same, and so is the current task, whatever steps it took.
abbrev Keeps : {C : Type 0} → Droid C → Droid C → Type 0
Keeps d d' =
    (d'.history ≡ d.history)
    × (d'.next_task ≡ d.next_task)
    × (identity d'.current ≡ identity d.current)

identity_steps : (o : Option Task) (label : String) → identity (steps_of o label) ≡ identity o
identity_steps none label = refl
identity_steps (some t) label = refl

-- the task of that identity that is current, as `or_task` finds it
or_task-identity :
    (o : Option Task) (t u : Task)
    → identity o ≡ identity (some t)
    → (or_task o u).intent ≡ t.intent
      × ((or_task o u).user ≡ t.user)
      × ((or_task o u).task_id ≡ t.task_id)
or_task-identity none t u h = absurd (ground (arith, h))
or_task-identity (some t') t u h = ground (arith, h)

final_state_lem :
    {C : Type 0} → (r : TaskResult C) → final_state r ≡ (if r.ok then succeeded else failed)
final_state_lem r = ground (arith)

module _ {C P : Type 0} where
  handle-Keeps : (h : Handler) (w : World C P) (t : Task) (d : Droid C) → Keeps d (handle h w t d).0
  unfolding handle h_status h_battery h_temperature h_diagnostics h_explain h_describe h_list_places
      h_help h_stop h_estop h_cancel h_silence h_safe_idle h_navigate h_go_charge h_inspect
      h_remember h_store_place h_forget h_set_body h_install_update h_reboot h_shutdown assess
      safety_status is_stopped stop_motion drive_droid
  handle-Keeps get_status w t d = ground (arith)
  handle-Keeps get_battery w t d = ground (arith)
  handle-Keeps get_temperature w t d = ground (arith)
  handle-Keeps diagnose w t d = ground (arith)
  handle-Keeps explain w t d = ground (arith)
  handle-Keeps describe w t d = ground (arith)
  handle-Keeps list_places w t d = ground (arith)
  handle-Keeps help w t d = ground (arith)
  handle-Keeps stop w t d = ground (arith)
  handle-Keeps estop w t d = ground (arith)
  handle-Keeps cancel w t d = ground (arith)
  handle-Keeps silence w t d = ground (arith)
  handle-Keeps safe_idle w t d = ground (arith)
  handle-Keeps navigate w t d = ground (arith)
  handle-Keeps go_charge w t d = ground (arith)
  handle-Keeps inspect w t d = ground (arith)
  handle-Keeps remember w t d = ground (arith)
  handle-Keeps store_place w t d = ground (arith)
  handle-Keeps forget w t d = ground (arith)
  handle-Keeps set_body w t d = ground (arith)
  handle-Keeps install_update w t d = ground (arith)
  handle-Keeps reboot w t d = ground (arith)
  handle-Keeps shutdown w t d = ground (arith)

  handle_intent-Keeps :
      (o : Option Handler) (w : World C P) (t : Task) (d : Droid C)
      → Keeps d (handle_intent o w t d).0
  unfolding handle_intent
  handle_intent-Keeps none w t d = (refl, refl, refl)
  handle_intent-Keeps (some h) w t d = handle-Keeps h w t d

  -- Running an intent, whose arguments are pairs of texts, always comes to an end with a result: whatever the handler does, one task is
  -- appended to the history, with the intent, the user and the next task id, in state SUCCEEDED if
  -- the result is a success and FAILED if it is not or the handler raised; no task is current then,
  -- and the earlier history stays.
  pub run_intent_recorded :
      (w : World C P) (intent user : String) (arguments : List (String × String)) (d : Droid C)
      → let (d', r) = run_intent w intent user arguments d in
        (t : Task) × (d'.history ≡ d.history ++ t ∷ [])
        × (t.intent ≡ intent)
        × (t.user ≡ user)
        × (t.task_id ≡ d.next_task)
        × (t.state ≡ (if r.ok then succeeded else failed))
        × (r.task_id ≡ d.next_task)
        × (d'.next_task ≡ suc d.next_task)
        × (d'.current ≡ none)
  unfolding run_intent end_task begin_task
  run_intent_recorded w intent user arguments d =
      let t = new intent user arguments d.next_task in
      let begun = begin_task w t d in
      let (d', reply) = handle_intent (handler_of intent) w (start w.times.start t) begun in
      let (same_history, same_counter, same_task) =
        handle_intent-Keeps (handler_of intent) w (start w.times.start t) begun in
      let (i, u, n) = or_task-identity d'.current (start w.times.start t) t same_task in
      let r = record (result_of intent reply) { task_id = d.next_task } in
      (
        finish w.times.finish (final_state r) (or_task d'.current t),
        ap (λ h. h ++ finish w.times.finish (final_state r) (or_task d'.current t) ∷ [])
            same_history,
        i,
        u,
        n,
        final_state_lem r,
        refl,
        same_counter,
        refl,
      )
