-- ===== src/Core/States/Laws.antt =====
-- What one call of the state machine does, and how its state sets relate.
use droid_os.Prelude.{◌≡◌, refl, true, not, arith}
use droid_os.Core.States.{
  DroidState, StateMachine, same_state, among, motion_allowed_from, motion_forbidden,
  motion_permitted, powered_off,
}

pub same_state_iff : (s t : DroidState) → (same_state s t ≡ true) → s ≡ t
unfolding same_state
same_state_iff s t h = ground arith

pub same_state_symm : (s t : DroidState) → same_state s t ≡ same_state t s
unfolding same_state
same_state_symm s t = ground arith

pub same_state_refl : (s : DroidState) → same_state s s ≡ true
unfolding same_state
same_state_refl s = ground arith

forbidden_complement :
    (s : DroidState) → among s motion_allowed_from ≡ not (among s motion_forbidden)
unfolding among
forbidden_complement powered_off = refl
forbidden_complement _ = refl

-- Motion is permitted in exactly the states that `MOTION_FORBIDDEN` does not list.
pub permitted-not_forbidden :
    (m : StateMachine) → motion_permitted m ≡ not (among m.state motion_forbidden)
unfolding motion_permitted
permitted-not_forbidden m = forbidden_complement m.state
