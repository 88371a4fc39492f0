-- ===== src/Core/States/Recovery.antt =====
-- The way back from an emergency stop when no call is forced.
use droid_os.Prelude.{
  String, ◌≡◌, refl, ◌⊎◌, inl, inr, Bool, true, false, arith, List, [], ◌∷◌, any, any-append, ◌||◌,
}
use droid_os.Core.States.{
  DroidState, StateMachine, same_state, can_transition, among, transitions, motion_permitted,
  motion_allowed_from, record_move, initial, emergency_stopped, recovery, shutting_down,
  powered_off, booting, hardware_check, safe_idle, motion_inhibited,
}
use mathlib.Core.Logic.{⊎_elim}
use droid_os.Core.States.Runs.{Call, asked, perform, perform_all, transition_cases}

-- Calls of `transition` only.
abbrev pub ask_all : List (DroidState × String) → List Call
ask_all [] = []
ask_all ((dst, reason) ∷ rest) = asked dst reason ∷ ask_all rest

-- The log has a move into one of the states.
abbrev pub entered : List DroidState → StateMachine → Bool
entered states m = any (λ e. among e.dst states) m.history

-- Where the droid is until it gets to SAFE_IDLE or MOTION_INHIBITED, and until it gets
-- to RECOVERY or SHUTTING_DOWN.
abbrev pub still_down : List DroidState
still_down =
    emergency_stopped ∷ recovery ∷ shutting_down ∷ powered_off ∷ booting ∷ hardware_check ∷ []

or_true : (b : Bool) → (b || (true || false)) ≡ true
or_true true = refl
or_true false = refl

module _ (inside gates : List DroidState)
    (closed : (s t : DroidState)
      → among s inside ≡ true
      → among t (transitions s) ≡ true
      → (among t inside ≡ true) ⊎ (among t gates ≡ true)) where
  abbrev Held : StateMachine → Type 0
  Held m = (among m.state inside ≡ true) ⊎ (entered gates m ≡ true)

  perform-Held :
      (m : StateMachine) (dst : DroidState) (reason : String)
      → Held m
      → Held (perform m (asked dst reason))
  unfolding perform can_transition
  perform-Held m dst reason h = elim (transition_cases m dst reason) [
    | inl same ↦ rw same h
    | inr (legal, moved) ↦ rw moved (held h legal)
  ]
    where
      held : Held m → among dst (transitions m.state) ≡ true → Held (record_move m dst reason)
      held (inr past) legal = inr (rw any-append (rw past refl))
      held (inl here) legal = elim (closed m.state dst here legal) [
        | inl stays ↦ inl stays
        | inr gate ↦ inr (rw any-append (rw gate (or_true _)))
      ]

  perform_all-Held :
      (m : StateMachine) (cs : List (DroidState × String))
      → Held m
      → Held (perform_all m (ask_all cs))
  unfolding perform_all
  perform_all-Held m [] h = h
  perform_all-Held m ((dst, reason) ∷ cs) h =
      perform_all-Held (perform m (asked dst reason)) cs (perform-Held m dst reason h)

abbrev stopped_only : List DroidState
stopped_only = emergency_stopped ∷ []

abbrev pub recovery_gates : List DroidState
recovery_gates = recovery ∷ shutting_down ∷ []

abbrev pub readiness_gates : List DroidState
readiness_gates = safe_idle ∷ motion_inhibited ∷ []

leaves_stopped :
    (s t : DroidState)
    → among s stopped_only ≡ true
    → among t (transitions s) ≡ true
    → (among t stopped_only ≡ true) ⊎ (among t recovery_gates ≡ true)
unfolding among transitions same_state
leaves_stopped emergency_stopped t h e = inr e
leaves_stopped _ t h e = ground arith

leaves_down :
    (s t : DroidState)
    → among s still_down ≡ true
    → among t (transitions s) ≡ true
    → (among t still_down ≡ true) ⊎ (among t readiness_gates ≡ true)
unfolding among transitions same_state
leaves_down emergency_stopped t h e = ground arith
leaves_down _ t h e = ground arith

still_down-forbids :
    (s : DroidState) → among s still_down ≡ true → among s motion_allowed_from ≡ true → ⊥
unfolding among same_state
still_down-forbids emergency_stopped h k = ground arith
still_down-forbids _ h k = ground arith

stopped_only-forbids :
    (s : DroidState) → among s stopped_only ≡ true → among s motion_allowed_from ≡ true → ⊥
unfolding among same_state
stopped_only-forbids emergency_stopped h k = ground arith
stopped_only-forbids _ h k = ground arith

-- From EMERGENCY_STOPPED, no sequence of unforced calls, whatever raises, gets the droid to a state
-- that permits motion unless it has entered RECOVERY or SHUTTING_DOWN, and has entered
-- SAFE_IDLE or MOTION_INHIBITED.
pub no_motion_without_recovery :
    (cs : List (DroidState × String))
    → let m = perform_all (initial emergency_stopped) (ask_all cs) in
      motion_permitted m ≡ true
      → (entered recovery_gates m ≡ true) × (entered readiness_gates m ≡ true)
unfolding motion_permitted
no_motion_without_recovery cs h = (
  ⊎_elim (λ a. absurd (stopped_only-forbids final a h)) (λ past. past)
      (perform_all-Held stopped_only recovery_gates leaves_stopped start cs
        (inl (unfold among same_state in refl))),
  ⊎_elim (λ a. absurd (still_down-forbids final a h)) (λ past. past)
      (perform_all-Held still_down readiness_gates leaves_down start cs
        (inl (unfold among same_state in refl))),
)
  where
    start : StateMachine
    start = initial emergency_stopped

    final : DroidState
    final = (perform_all start (ask_all cs)).state
