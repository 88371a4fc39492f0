-- ===== src/Executive/Tasks.antt =====
-- `src/droidos/executive/tasks.py`: tasks and their results. The counter of task ids is part of the
-- executive's state; what a result reports is a value of `Facts`, its error one of `Failure`.
use droid_os.Prelude.{ℕ, String, Bool, Option, List, [], ◌∷◌, ◌++◌}
use droid_os.Core.States.{DroidState}
use droid_os.Backends.SafetyController.{SafetyControllerState}
use droid_os.Services.SafetyGateway.{Reason}
use droid_os.Services.WorldModel.{Place}
use droid_os.Services.Supervisor.Readiness.{Inhibit}
use droid_os.Services.Update
use droid_os.Executive.Drive

pub data TaskState : Type 0 where
  created running succeeded failed cancelled : TaskState

pub record Task : Type 0 where
  pub intent : String
  pub user : String
  pub arguments : List (String × String)
  pub task_id : ℕ
  pub state : TaskState
  pub started : ℕ
  pub finished : ℕ
  pub steps : List String

-- `Task(…)`, with the next id of the counter
abbrev pub new : String → String → List (String × String) → ℕ → Task
new intent user arguments task_id = record {
  intent = intent;
  user = user;
  arguments = arguments;
  task_id = task_id;
  state = created;
  started = 0;
  finished = 0;
  steps = [];
}

abbrev pub start : ℕ → Task → Task
start now t = record t { state = running; started = now }

abbrev pub step : String → Task → Task
step label t = record t { steps = t.steps ++ label ∷ [] }

abbrev pub finish : ℕ → TaskState → Task → Task
finish now st t = record t { state = st; finished = now }

pub data Failure : Type 0 where
  no_failure : Failure
  plain exception : String → Failure
  unknown_place : String → Failure
  drive_failed : Drive.Outcome → (label : String) → Failure
  no_permission : Reason → Failure

-- `data`, which the renderer reads; a `report` is a dictionary that another service has made.
pub data Facts (C : Type 0) : Type 0 where
  nothing stop_sent stop_engaged cancel_sent silence_kept reboot_note : Facts C
  status :
      DroidState
      → (body : Option String) → (battery : Option ℕ) → (motion_permitted : Bool) → List Inhibit
      → Option SafetyControllerState
      → Facts C
  battery : (percent : ℕ) (charging : Bool) (minimum : ℕ) (safe_to_move : Bool) → Facts C
  report : List (String × String) → Facts C
  last_task : Option Task → Facts C
  why : DroidState → List Inhibit → (estop : Bool) → Facts C
  places : List String → List (String × Place C) → Facts C
  tools : List (String × String) → Facts C
  state_now : DroidState → Facts C
  drive : Drive.Outcome → (destination : String) → (docked : Bool) → Facts C
  findings : List (String × String) → (destination : Option String) → (driven : Bool) → Facts C
  remembered selection : String → Facts C
  stored_place : String → C → C → Facts C
  forgot : ℕ → (place_removed : Bool) → Facts C
  update_status : Update.Info → Facts C
  updated : Update.Reply → Facts C

pub record TaskResult (C : Type 0) : Type 0 where
  pub ok : Bool
  pub kind : String
  pub facts : Facts C
  pub error : Failure
  pub task_id : ℕ
