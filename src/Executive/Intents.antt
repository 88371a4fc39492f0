-- ===== src/Executive/Intents.antt =====
-- `run_intent` of `src/droidos/executive/executive.py`, with the table of handlers. An exception of a
-- handler becomes a failed result.
pub mod History
pub mod Power
pub mod DriveOff
pub mod Leaves
pub mod Latched
pub mod Holds
pub mod Stops
pub mod Fixture
mod Examples
use droid_os.Prelude.{
  ℕ, suc, String, Bool, true, false, ◌&&◌, Option, none, some, List, [], ◌∷◌, ◌++◌, lookup, str_eq,
  if◌then◌else◌,
}
use droid_os.Executive.Tasks.{
  Task, TaskState, TaskResult, succeeded, failed, cancelled, new, start, finish, no_failure,
  nothing, plain, exception,
}
use droid_os.Executive.Droid.{Droid, World, TaskEvent, gateway}
use droid_os.Executive.Handlers.{Reply, returned, raised, failure}
use droid_os.Executive.Handlers.Reports.{
  h_status, h_battery, h_temperature, h_diagnostics, h_explain, h_describe, h_list_places, h_help,
}
use droid_os.Executive.Handlers.Control.{
  h_stop, h_estop, h_cancel, h_silence, h_safe_idle, h_set_body, h_install_update, h_reboot,
  h_shutdown,
}
use droid_os.Executive.Handlers.Motion.{h_navigate, h_go_charge, h_inspect}
use droid_os.Executive.Handlers.Records.{h_remember, h_store_place, h_forget}

pub data Handler : Type 0 where
  get_status get_battery get_temperature diagnose explain describe list_places help : Handler
  stop estop cancel silence safe_idle : Handler
  navigate go_charge inspect : Handler
  remember store_place forget : Handler
  set_body install_update reboot shutdown : Handler

-- `_handlers`, which `_register_handlers` fills
abbrev pub handlers : List (String × Handler)
handlers =
    ("robot.get_status", get_status)
    ∷ ("robot.get_battery", get_battery)
    ∷ ("robot.get_temperature", get_temperature)
    ∷ ("diagnostics.summary", diagnose)
    ∷ ("robot.explain", explain)
    ∷ ("perception.describe_scene", describe)
    ∷ ("navigation.list_places", list_places)
    ∷ ("help", help)
    ∷ ("motion.stop", stop)
    ∷ ("motion.emergency_stop", estop)
    ∷ ("task.cancel", cancel)
    ∷ ("voice.silence", silence)
    ∷ ("robot.return_safe_idle", safe_idle)
    ∷ ("navigation.navigate_to", navigate)
    ∷ ("navigation.go_charge", go_charge)
    ∷ ("inspect.named_target", inspect)
    ∷ ("memory.remember", remember)
    ∷ ("memory.store_place", store_place)
    ∷ ("memory.forget", forget)
    ∷ ("system.set_body", set_body)
    ∷ ("system.install_update", install_update)
    ∷ ("system.request_reboot", reboot)
    ∷ ("system.shutdown", shutdown)
    ∷ []

unfoldable pub handler_of : String → Option Handler
handler_of intent = lookup intent handlers

abbrev pub or_task : Option Task → Task → Task
or_task none t = t
or_task (some t) u = t

-- `TaskResult(False, intent, error=…)` for an exception
abbrev pub result_of : {C : Type 0} → String → Reply C → TaskResult C
result_of intent (returned r) = r
result_of intent (raised e) = record {
  ok = false;
  kind = intent;
  facts = nothing;
  error = exception e;
  task_id = 0;
}

-- the state in which the task ends
abbrev pub final_state : {C : Type 0} → TaskResult C → TaskState
final_state r =
    if r.ok then succeeded else if str_eq r.kind "task.cancel" && r.ok then cancelled else failed

module _ {C P : Type 0} where
  unfoldable pub handle : Handler → World C P → Task → Droid C → Droid C × Reply C
  handle get_status w t d = h_status w t d
  handle get_battery w t d = h_battery w t d
  handle get_temperature w t d = h_temperature w t d
  handle diagnose w t d = h_diagnostics w t d
  handle explain w t d = h_explain w t d
  handle describe w t d = h_describe w t d
  handle list_places w t d = h_list_places w t d
  handle help w t d = h_help w t d
  handle stop w t d = h_stop w t d
  handle estop w t d = h_estop w t d
  handle cancel w t d = h_cancel w t d
  handle silence w t d = h_silence w t d
  handle safe_idle w t d = h_safe_idle w t d
  handle navigate w t d = h_navigate w t d
  handle go_charge w t d = h_go_charge w t d
  handle inspect w t d = h_inspect w t d
  handle remember w t d = h_remember w t d
  handle store_place w t d = h_store_place w t d
  handle forget w t d = h_forget w t d
  handle set_body w t d = h_set_body w t d
  handle install_update w t d = h_install_update w t d
  handle reboot w t d = h_reboot w t d
  handle shutdown w t d = h_shutdown w t d

  -- the handler, or `_unhandled`
  unfoldable pub handle_intent : Option Handler → World C P → Task → Droid C → Droid C × Reply C
  handle_intent none w t d =
      (d, failure t.intent nothing (plain "no executive handler for this intent"))
  handle_intent (some h) w t d = handle h w t d

  -- the droid with its task, before the handler runs
  unfoldable pub begin_task : World C P → Task → Droid C → Droid C
  begin_task w t d = record d {
    current = some (start w.times.start t);
    cancel = false;
    next_task = suc d.next_task;
    audit =
        d.audit
        ++ record {
          user = t.user;
          intent = t.intent;
          task_id = t.task_id;
          ended = none;
          reason = no_failure;
          safety_state = (gateway d).machine.state;
        }
          ∷ [];
  }

  -- what follows the handler
  unfoldable pub end_task : World C P → Task → Droid C × Reply C → Droid C × TaskResult C
  end_task w t (d, reply) =
      let r = record (result_of t.intent reply) { task_id = t.task_id } in
      let done = finish w.times.finish (final_state r) (or_task d.current t) in
      (
        record d {
          current = none;
          history = d.history ++ done ∷ [];
          audit =
              d.audit
              ++ record {
                user = t.user;
                intent = t.intent;
                task_id = t.task_id;
                ended = some done.state;
                reason = r.error;
                safety_state = (gateway d).machine.state;
              }
                ∷ [];
        },
        r,
      )

  unfoldable pub run_intent :
      World C P → (intent user : String) → List (String × String) → Droid C → Droid C × TaskResult C
  unfolding handle_intent begin_task end_task
  run_intent w intent user arguments d =
      let t = new intent user arguments d.next_task in
      end_task w t (handle_intent (handler_of intent) w (start w.times.start t) (begin_task w t d))
