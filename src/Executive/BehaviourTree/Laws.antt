-- ===== src/Executive/BehaviourTree/Laws.antt =====
-- When a sequence and a selector succeed, and that running a tree settles.
use droid_os.Prelude.{ℕ, String, zero, suc, ◌≡◌, ◌≢◌, ◌↔◌, refl, arith}
use droid_os.Executive.BehaviourTree.{
  success, failure, running, Answer, returned, raised, Node, Children, leaf, also, tick, tick_all,
  run, and_then, unless_settled, name_of,
}

-- Every child answers with success, each in the state that the one before it left, and the last one
-- leaves `s'`.
abbrev pub Passes : {S : Type 0} → Children S → S → S → Type 0
Passes leaf s s' = s ≡ s'
Passes (also c cs) s s' = ((tick c s).1 ≡ returned success) × Passes cs (tick c s).0 s'

-- what a child's answer has to be for the sequence to succeed
and_then-success :
    {S : Type 0} (s s' : S) (a : Answer) (name : String) (rest : S × Answer × String)
    → (((and_then s a name rest).0 ≡ s') × ((and_then s a name rest).1 ≡ returned success))
      ↔ ((a ≡ returned success) × (rest.0 ≡ s') × (rest.1 ≡ returned success))
and_then-success s s' (raised e) name rest =
    (λ h. absurd (ground (arith, h.1)), λ h. absurd (ground (arith, h.0)))
and_then-success s s' (returned success) name rest = (λ h. (refl, h.0, h.1), λ h. (h.1, h.2))
and_then-success s s' (returned running) name rest =
    (λ h. absurd (ground (arith, h.1)), λ h. absurd (ground (arith, h.0)))
and_then-success s s' (returned failure) name rest =
    (λ h. absurd (ground (arith, h.1)), λ h. absurd (ground (arith, h.0)))

-- A sequence succeeds and leaves a state exactly when every child succeeds, in order, each in the
-- state that the one before it left, and the last one leaves that state.
pub sequence-Passes :
    {S : Type 0} (cs : Children S) (s s' : S)
    → (((tick_all cs s).0 ≡ s') × ((tick_all cs s).1 ≡ returned success)) ↔ Passes cs s s'
unfolding tick tick_all
sequence-Passes leaf s s' = (λ h. h.0, λ h. (h, refl))
sequence-Passes (also c cs) s s' =
    let (s1, a) = tick c s in
    let head = and_then-success s1 s' a (name_of c) (tick_all cs s1) in
    let tail = sequence-Passes cs s1 s' in
    (
      λ h. let (ok, left, succeeded) = head.0 h in (ok, tail.0 (left, succeeded)),
      λ h. let (left, succeeded) = tail.1 h.1 in head.1 (h.0, left, succeeded),
    )

unless_settled_lem :
    {S : Type 0} (s : S) (a : Answer) (rest : S × Answer)
    → rest.1 ≢ returned running
    → (unless_settled s a rest).1 ≢ returned running
unless_settled_lem s (raised e) rest h k = ground (arith, k)
unless_settled_lem s (returned running) rest h k = h k
unless_settled_lem s (returned success) rest h k = ground (arith, k)
unless_settled_lem s (returned failure) rest h k = ground (arith, k)

-- Running a tree settles: whatever the budget of ticks, the answer is never that it is still running.
pub run_settles : {S : Type 0} (n : ℕ) (root : Node S) (s : S) → (run n root s).1 ≢ returned running
unfolding run
run_settles zero root s = λ k. ground (arith, k)
run_settles (suc n) root s =
    let (s', a) = tick root s in unless_settled_lem s' a (run n root s') (run_settles n root s')
