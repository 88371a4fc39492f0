-- ===== src/Executive/Drive.antt =====
-- `_drive_to` of `src/droidos/executive/executive.py`. Its behaviour tree runs on a `Trip`: the
-- gateway, the world model, whether the permission is held, and the result. What each call of a
-- service gives in a turn of the driving loop, its answer or the exception that it raises, is a
-- `Turn`; the turns are an argument. `data` and the steps of the task are left out, except for its result.
pub mod Release
pub mod Stays
pub mod Broken
mod Examples
use droid_os.Prelude.{
  ℕ, zero, suc, String, ◌^^◌, Bool, true, false, not, ◌||◌, Option, none, some, if◌then◌else◌,
  Result, ok, err,
}
use droid_os.Core.States.{
  DroidState, ready, degraded, active, same_state, StateMachine, InvalidTransition, transition,
}
use droid_os.Services.SafetyGateway.{Gateway, request_motion_permission, release_motion_permission}
use droid_os.Services.WorldModel.{WorldModel, set_obstacle}
use droid_os.Executive.BehaviourTree.{
  Answer, returned, raised, success, failure, running, status_of, Node, action, sequence, leaf,
  also, run,
}

-- `data["result"]`
pub data Outcome : Type 0 where
  undecided cancelled localization_lost blocked arrived timeout : Outcome

-- `err` is the exception of the call.
pub record Turn (C : Type 0) : Type 0 where
  pub cancel : Bool
  pub localized : Result String Bool
  pub path_blocked : Result String Bool
  -- where the obstruction is, by `backend.pose`, if its distance is known
  pub obstacle : Option (Result String (C × C))
  pub now : ℕ
  -- within `ARRIVAL_M` of the goal, by `backend.pose` and `velocity_toward`
  pub near : Result String Bool
  pub drive_error : Option String

pub record Trip (C : Type 0) : Type 0 where
  pub gateway : Gateway
  pub world : Option (WorldModel C)
  pub held : Bool
  pub result : Outcome
  pub label : String  -- the goal's name

-- The readings of the clock while the permission is requested and released.
pub record Clocks : Type 0 where
  pub beat : ℕ
  pub now : ℕ
  pub stamp : ℕ
  pub logged : ℕ
  pub released : ℕ

-- `MAX_DRIVE_TICKS`
abbrev pub max_drive_ticks : ℕ
max_drive_ticks = 3000

-- the answer, unless the last transition raised
abbrev pub after : Answer → Answer → Answer
after (raised e) a = raised e
after (returned st) a = a

module _ {C : Type 0} where
  unfoldable pub acquire : Clocks → Trip C → Trip C × Answer
  acquire c t =
      let (g, permission) = request_motion_permission c.beat c.now c.stamp c.logged t.gateway in
      (record t { gateway = g; held = permission.allowed }, status_of permission.allowed)

  abbrev pub moved : Trip C → Result InvalidTransition StateMachine → Trip C × Answer
  moved t (err e) = (t, raised "InvalidTransition")
  moved t (ok m) = (record t { gateway = record t.gateway { machine = m } }, returned success)

  -- `st.transition(dst)` on the system's state machine
  abbrev pub move : Trip C → DroidState → String → Trip C × Answer
  move t dst why = moved t (transition t.gateway.machine dst why)

  unfoldable pub enter_active : Trip C → Trip C × Answer
  enter_active t =
      let s = t.gateway.machine.state in
      if same_state s ready || same_state s degraded
      then move t active ("navigate to " ^^ t.label)
      else (t, returned success)

  abbrev ends : Trip C → Outcome → Answer → Trip C × Answer
  ends t o a = (record t { result = o }, a)

  abbrev pub noted :
      ℕ
      → Option (Result String (C × C))
      → Option (WorldModel C)
      → Result String (Option (WorldModel C))
  noted now none w = ok w
  noted now (some r) none = ok none
  noted now (some (err e)) (some w) = err e
  noted now (some (ok (x, y))) (some w) = ok (some (set_obstacle now x y w))

  abbrev pub stopped_short : Trip C → Result String (Option (WorldModel C)) → Trip C × Answer
  stopped_short t (err e) = (t, raised e)
  stopped_short t (ok w) = (record t { world = w }, returned failure)

  -- the first, where the call answers true, and the second, where it answers false
  abbrev asked : Trip C → Result String Bool → Trip C × Answer → Trip C × Answer → Trip C × Answer
  asked t (err e) a b = (t, raised e)
  asked t (ok true) a b = a
  asked t (ok false) a b = b

  abbrev unless_raised : Trip C → Option String → Trip C × Answer → Trip C × Answer
  unless_raised t none rest = rest
  unless_raised t (some e) rest = (t, raised e)

  -- the loop, from turn `k` on, with `n` turns left
  unfoldable pub drive : ℕ → (ℕ → Turn C) → ℕ → Trip C → Trip C × Answer
  drive zero turns k t = ends t timeout (returned failure)
  drive (suc n) turns k t =
      let now = turns k in
      let rest = drive n turns (suc k) t in
      if now.cancel
      then ends t cancelled (returned failure)
      else asked t now.localized
          (asked t now.path_blocked
            (stopped_short (record t { result = blocked }) (noted now.now now.obstacle t.world))
            (asked t now.near (ends t arrived (returned success))
              (unless_raised t now.drive_error rest)))
          (ends t localization_lost (returned failure))

  unfoldable pub tree : Clocks → (ℕ → Turn C) → Node (Trip C)
  tree c turns = sequence "navigate" (
      also (action "acquire_motion_permission" (acquire c)) (
        also (action "enter_active" enter_active)
          (also (action "drive_to_goal" (drive max_drive_ticks turns 0)) leaf)))

  abbrev pub release : Clocks → Trip C → Trip C
  release c t =
      if t.held then record t { gateway = release_motion_permission c.released t.gateway } else t

  abbrev pub settle : Trip C → Answer → Trip C × Answer
  settle t a =
      if same_state t.gateway.machine.state active
      then (let (t', moved_to) = move t ready "task complete" in (t', after moved_to a))
      else (t, a)

  -- what follows the tree, unless it raised
  unfoldable pub finish : Clocks → Trip C → Answer → Trip C × Answer
  finish c t (raised e) = (t, raised e)
  finish c t (returned st) = settle (release c t) (returned st)

  -- `_drive_to`
  unfoldable pub drive_to : Clocks → (ℕ → Turn C) → Trip C → Trip C × Answer
  unfolding finish run tree
  drive_to c turns t = let (t', a) = run 10000 (tree c turns) t in finish c t' a
