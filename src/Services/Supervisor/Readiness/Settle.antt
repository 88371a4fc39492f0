-- ===== src/Services/Supervisor/Readiness/Settle.antt =====
-- `_settle` gets the droid to the assessed state.
use droid_os.Prelude.{◌≡◌, refl, true, false, arith, ok, Bool-cases, inl, inr, String}
use droid_os.Core.States.{
  DroidState, StateMachine, same_state, can_transition, transition, force, record_move,
}
use droid_os.Core.States.Laws.{same_state_iff, same_state_symm}
use droid_os.Services.Supervisor.Readiness.{settle}

pub can-transition :
    (m : StateMachine) (dst : DroidState) (reason : String)
    → same_state dst m.state ≡ false
    → can_transition m dst ≡ true
    → (m' : StateMachine) × (transition m dst reason ≡ ok m') × (m'.state ≡ dst)
unfolding transition
can-transition m dst reason n c = (record_move m dst reason, ground arith, refl)

-- Settling never raises, and the machine is in the target state afterwards, whatever the graph says.
pub settle_reaches :
    (target : DroidState) (m : StateMachine)
    → (m' : StateMachine) × (settle target m ≡ ok m') × (m'.state ≡ target)
unfolding settle
settle_reaches target m = elim (Bool-cases (same_state m.state target)) [
  | inl same ↦ (m, rw same, same_state_iff _ _ same)
  | inr other ↦ elim (Bool-cases (can_transition m target)) [
    | inl legal ↦
        let (m', e, s) =
          can-transition m target "readiness settle"
            (ground (arith, same_state_symm target m.state)) legal in
        (m', rw (other, legal) e, s)
    | inr not_legal ↦
        (force m target "readiness settle", rw (other, not_legal), unfold force in refl)
  ]
]
