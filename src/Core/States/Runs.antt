-- ===== src/Core/States/Runs.antt =====
-- Sequences of calls on one machine, the raising ones included: the log stays a chain of moves.
use droid_os.Prelude.{
  String, ◌≡◌, refl, ◌⊎◌, inl, inr, true, ok, err, List, [], ◌∷◌, ◌++◌, Bool-cases, ◌^^◌, Result,
}
use droid_os.Core.States.{
  DroidState, Entry, StateMachine, InvalidTransition, same_state, can_transition, transition, force,
  record_move, initial, among, transitions,
}

-- A call of `transition` or of `force` by any service.
pub data Call : Type 0 where
  asked forced : DroidState → String → Call

-- The machine after a call; `InvalidTransition` leaves it as it was.
abbrev pub after : StateMachine → Result InvalidTransition StateMachine → StateMachine
after m (ok m') = m'
after m (err e) = m

unfoldable pub perform : StateMachine → Call → StateMachine
perform m (asked dst reason) = after m (transition m dst reason)
perform m (forced dst reason) = force m dst reason

unfoldable pub perform_all : StateMachine → List Call → StateMachine
perform_all m [] = m
perform_all m (c ∷ cs) = perform_all (perform m c) cs

-- A logged move follows the graph, or is marked as forced.
abbrev pub IsAccounted : Entry → Type 0
IsAccounted e =
    (among e.dst (transitions e.src) ≡ true) ⊎ ((r : String) × (e.reason ≡ ("FORCED: " ^^ r)))

-- The log leads from `s` to `t`: each move starts where the one before it ended.
abbrev pub Leads : DroidState → List Entry → DroidState → Type 0
Leads s [] t = s ≡ t
Leads s (e ∷ es) t = (s ≡ e.src) × IsAccounted e × Leads e.dst es t

Leads-append :
    (s : DroidState) (es : List Entry) (e : Entry)
    → Leads s es e.src
    → IsAccounted e
    → Leads s (es ++ e ∷ []) e.dst
Leads-append s [] e h a = (h, a, refl)
Leads-append s (x ∷ es) e h a = (h.0, h.1, Leads-append x.dst es e h.2 a)

pub transition_cases :
    (m : StateMachine) (dst : DroidState) (reason : String)
    → (after m (transition m dst reason) ≡ m)
      ⊎ ((can_transition m dst ≡ true)
          × (after m (transition m dst reason) ≡ record_move m dst reason))
unfolding transition
transition_cases m dst reason = elim (Bool-cases (same_state dst m.state)) [
  | inl same ↦ inl (rw same)
  | inr other ↦ elim (Bool-cases (can_transition m dst)) [
    | inl legal ↦ inr (legal, rw (other, legal))
    | inr not_legal ↦ inl (rw (other, not_legal))
  ]
]

abbrev pub IsChained : DroidState → StateMachine → Type 0
IsChained s m = Leads s m.history m.state

perform-IsChained :
    (s : DroidState) (m : StateMachine) (c : Call) → IsChained s m → IsChained s (perform m c)
unfolding perform can_transition force
perform-IsChained s m (forced dst reason) h = Leads-append s m.history _ h (inr (reason, refl))
perform-IsChained s m (asked dst reason) h = elim (transition_cases m dst reason) [
  | inl same ↦ rw same h
  | inr (legal, moved) ↦ rw moved (Leads-append s m.history _ h (inl legal))
]

perform_all-Leads :
    (s : DroidState) (m : StateMachine) (cs : List Call)
    → IsChained s m
    → IsChained s (perform_all m cs)
unfolding perform_all
perform_all-Leads s m [] h = h
perform_all-Leads s m (c ∷ cs) h = perform_all-Leads s (perform m c) cs (perform-IsChained s m c h)

-- Whatever calls are made on a fresh machine, raising ones included, its history is an unbroken
-- chain of moves from the initial state to the current one, and each move follows an edge of the
-- transition graph or carries the mark `FORCED: `.
pub history_is_chain : (s : DroidState) (cs : List Call) → IsChained s (perform_all (initial s) cs)
history_is_chain s cs = perform_all-Leads s (initial s) cs refl
