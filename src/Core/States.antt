-- ===== src/Core/States.antt =====
-- `src/droidos/core/states.py`: the states of the droid, the legal transition graph, and the
-- `StateMachine` that enforces it. A mutating method returns the new machine; `transition` raises
-- before it writes, so a raise leaves the machine as it was.
pub mod Laws
pub mod Runs
pub mod Recovery
mod Examples
use droid_os.Prelude.{
  ℕ, ◌==◌, String, ◌^^◌, Bool, ◌++◌, List, [], ◌∷◌, any, if◌then◌else◌, Result, ok, err,
}

pub data DroidState : Type 0 where
  powered_off booting hardware_check safe_idle ready active : DroidState
  degraded motion_inhibited emergency_stopped recovery shutting_down : DroidState

-- The position of each member, by which members are compared.
abbrev pub tag : DroidState → ℕ
tag powered_off = 0
tag booting = 1
tag hardware_check = 2
tag safe_idle = 3
tag ready = 4
tag active = 5
tag degraded = 6
tag motion_inhibited = 7
tag emergency_stopped = 8
tag recovery = 9
tag shutting_down = 10

-- the text that a member stands for
abbrev pub value : DroidState → String
value powered_off = "POWERED_OFF"
value booting = "BOOTING"
value hardware_check = "HARDWARE_CHECK"
value safe_idle = "SAFE_IDLE"
value ready = "READY"
value active = "ACTIVE"
value degraded = "DEGRADED"
value motion_inhibited = "MOTION_INHIBITED"
value emergency_stopped = "EMERGENCY_STOPPED"
value recovery = "RECOVERY"
value shutting_down = "SHUTTING_DOWN"

-- `==` of the enumeration
unfoldable pub same_state : DroidState → DroidState → Bool
same_state s t = tag s == tag t

-- `dst in states`, for a set of states listed in any order
unfoldable pub among : DroidState → List DroidState → Bool
unfolding same_state
among dst states = any (same_state dst) states

abbrev pub conversational : List DroidState
conversational = safe_idle ∷ ready ∷ active ∷ degraded ∷ motion_inhibited ∷ []

abbrev pub motion_allowed_from : List DroidState
motion_allowed_from = ready ∷ degraded ∷ active ∷ []

abbrev pub motion_forbidden : List DroidState
motion_forbidden =
    powered_off ∷ booting ∷ hardware_check ∷ safe_idle ∷ motion_inhibited ∷ emergency_stopped
    ∷ recovery ∷ shutting_down ∷ []

-- `_TRANSITIONS`, which `reachable` returns too
unfoldable pub transitions : DroidState → List DroidState
transitions powered_off = booting ∷ []
transitions booting = hardware_check ∷ recovery ∷ shutting_down ∷ []
transitions hardware_check = safe_idle ∷ motion_inhibited ∷ emergency_stopped ∷ recovery ∷ []
transitions safe_idle = ready ∷ motion_inhibited ∷ emergency_stopped ∷ shutting_down ∷ degraded ∷ []
transitions ready =
    active ∷ safe_idle ∷ degraded ∷ motion_inhibited ∷ emergency_stopped ∷ shutting_down ∷ []
transitions active = ready ∷ degraded ∷ motion_inhibited ∷ emergency_stopped ∷ shutting_down ∷ []
transitions degraded =
    ready ∷ active ∷ safe_idle ∷ motion_inhibited ∷ emergency_stopped ∷ shutting_down ∷ []
transitions motion_inhibited = safe_idle ∷ ready ∷ emergency_stopped ∷ shutting_down ∷ []
transitions emergency_stopped = recovery ∷ shutting_down ∷ []
transitions recovery = safe_idle ∷ shutting_down ∷ powered_off ∷ []
transitions shutting_down = powered_off ∷ []

pub data InvalidTransition : Type 0 where
  illegal : (src dst : DroidState) → InvalidTransition

pub record Entry : Type 0 where
  pub src : DroidState
  pub dst : DroidState
  pub reason : String

pub record StateMachine : Type 0 where
  pub state : DroidState
  pub history : List Entry

-- `StateMachine(initial)`
abbrev pub initial : DroidState → StateMachine
initial s = record { state = s; history = [] }

unfoldable pub can_transition : StateMachine → DroidState → Bool
unfolding among transitions
can_transition m dst = among dst (transitions m.state)

abbrev pub record_move : StateMachine → DroidState → String → StateMachine
record_move m dst reason = record {
  state = dst;
  history = m.history ++ record { src = m.state; dst = dst; reason = reason } ∷ [];
}

unfoldable pub transition :
    StateMachine → DroidState → String → Result InvalidTransition StateMachine
unfolding can_transition
transition m dst reason =
    if same_state dst m.state
    then ok m
    else if can_transition m dst
    then ok (record_move m dst reason)
    else err (illegal m.state dst)

unfoldable pub force : StateMachine → DroidState → String → StateMachine
force m dst reason = record_move m dst ("FORCED: " ^^ reason)

unfoldable pub motion_permitted : StateMachine → Bool
unfolding among
motion_permitted m = among m.state motion_allowed_from

unfoldable pub is_conversational : StateMachine → Bool
unfolding among
is_conversational m = among m.state conversational
