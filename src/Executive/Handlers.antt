-- ===== src/Executive/Handlers.antt =====
-- The handlers of `src/droidos/executive/executive.py`, one function each. A handler returns the
-- droid, and the result or the exception. Its task is `current`, the object that `run_intent` has
-- stored there.
pub mod Reports
pub mod Control
pub mod Motion
pub mod Records
use droid_os.Prelude.{
  or_text, String, ◌^^◌, Bool, true, false, Option, none, some, List, lookup, str_eq, if◌then◌else◌,
  Result, ok, err,
}
use droid_os.Executive.Tasks.{Task, TaskResult, Facts, Failure, no_failure, plain, step}
use droid_os.Executive.Droid.{Droid}

pub data Reply (C : Type 0) : Type 0 where
  returned : TaskResult C → Reply C
  raised : String → Reply C

abbrev pub steps_of : Option Task → String → Option Task
steps_of none label = none
steps_of (some t) label = some (step label t)

module _ {C : Type 0} where
  -- `TaskResult(True, kind, data)`
  abbrev pub success : String → Facts C → Reply C
  success kind facts =
      returned (record { ok = true; kind = kind; facts = facts; error = no_failure; task_id = 0 })

  -- `TaskResult(False, kind, data, error)`
  abbrev pub failure : String → Facts C → Failure → Reply C
  failure kind facts e =
      returned (record { ok = false; kind = kind; facts = facts; error = e; task_id = 0 })

  -- `task.step(label)`
  abbrev pub add_step : String → Droid C → Droid C
  add_step label d = record d { current = steps_of d.current label }

  -- `result` or the exception of a service's call
  abbrev pub reply_of {ℓ} : {A : Type ℓ} → Result String A → (A → Reply C) → Reply C
  reply_of (ok a) f = f a
  reply_of (err e) f = raised e

abbrev pub argument : String → Task → Option String
argument key t = lookup key t.arguments

-- what a Python text or `None` is worth as a condition: nothing, or a text that is not empty
abbrev pub given : Option String → Option String
given none = none
given (some s) = if str_eq s "" then none else some s
