-- ===== src/Executive/Droid.antt =====
-- What the executive reads and writes: the supervisor with the runtime, the services' own states, and
-- the executive's fields of `src/droidos/executive/executive.py`. A service that the runtime does not
-- have is `none`, or is missing among the runtime's services.
use droid_os.Prelude.{ℕ, String, Bool, Option, List, Result, StrMethods}
use droid_os.Core.States.{DroidState}
use droid_os.Services.SafetyGateway.{Gateway}
use droid_os.Services.WorldModel.{WorldModel}
use droid_os.Services.Memory.{Memory, TextMethods}
use droid_os.Services.Update.{Update, BundleFile}
use droid_os.Services.Supervisor.Boot.{Supervisor}
use droid_os.System.{Runtime}
use droid_os.Language.Tools.{Registry}
use droid_os.Executive.Drive
use droid_os.Executive.Drive.{Turn}
use droid_os.Executive.Tasks.{Task, TaskState, Failure}

-- One call of `audit.emit("task", …)`: `ended` is `none` for the record of the start.
pub record TaskEvent : Type 0 where
  pub user : String
  pub intent : String
  pub task_id : ℕ
  pub ended : Option TaskState
  pub reason : Failure
  pub safety_state : DroidState

pub record Droid (C : Type 0) : Type 0 where
  pub sup : Supervisor  -- with `rt`, also where the droid has no supervisor
  pub has_supervisor : Bool
  pub world : Option (WorldModel C)
  pub memory : Option Memory
  pub update : Option Update
  pub charging : Option Bool  -- `none` for a backend without `set_charging`
  pub zero_commands : ℕ  -- how often `motion.stop` commanded zero velocity
  pub tools : Option Registry
  pub cancel : Bool
  pub current : Option Task
  pub history : List Task
  pub next_task : ℕ
  pub audit : List TaskEvent

-- The readings of the clock while an intent runs.
pub record Times : Type 0 where
  pub start : ℕ
  pub finish : ℕ
  pub first : ℕ
  pub beat : ℕ
  pub now : ℕ
  pub drive : Drive.Clocks

-- What the rest of the program, the backend and Python answer while an intent runs.
pub record World (C P : Type 0) : Type 0 where
  pub times : Times
  pub turns : ℕ → Turn C
  pub py : StrMethods
  pub texts : TextMethods
  pub temperature : Result String (List (String × String))
  pub diagnosis : Result String (List (String × String))
  pub scene : Result String (List (String × String))
  pub scene_ok : Bool
  pub inspect : String → Result String (List (String × String))
  pub number : String → Option C  -- `float(text)`
  pub show_number : C → String  -- `f"{x:.1f}"`
  pub pose : C × C
  pub set_active : String → Option String → Result String String
  pub bundle : String → BundleFile P
  pub digest : P → String
  pub package_version : String

module _ {C : Type 0} where
  abbrev pub runtime : Droid C → Runtime
  runtime d = d.sup.rt

  abbrev pub gateway : Droid C → Gateway
  gateway d = d.sup.rt.gateway

  abbrev pub with_runtime : Runtime → Droid C → Droid C
  with_runtime rt d = record d { sup = record d.sup { rt = rt } }

  abbrev pub with_gateway : Gateway → Droid C → Droid C
  with_gateway g d = with_runtime (record d.sup.rt { gateway = g }) d
