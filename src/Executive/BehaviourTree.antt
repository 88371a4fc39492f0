-- ===== src/Executive/BehaviourTree.antt =====
-- `src/droidos/executive/behaviour_tree.py`. An action is a function on a shared state, which answers
-- with a status or raises; a truth value is the status that `Action.tick` makes of it. A sequence
-- returns, besides, the name that it keeps in `last_failed`.
pub mod Laws
mod Examples
use droid_os.Prelude.{ℕ, suc, zero, String, Bool, true, false}

pub data Status : Type 0 where
  success failure running : Status

pub data Answer : Type 0 where
  returned : Status → Answer
  raised : String → Answer

-- `Status.SUCCESS if result else Status.FAILURE`
abbrev pub status_of : Bool → Answer
status_of true = returned success
status_of false = returned failure

mutual
  pub data Node (S : Type 0) : Type 0 where
    action : String → (S → S × Answer) → Node S
    sequence : String → Children S → Node S
    selector : String → Children S → Node S

  pub data Children (S : Type 0) : Type 0 where
    leaf : Children S
    also : Node S → Children S → Children S

abbrev pub name_of : {S : Type 0} → Node S → String
name_of (action n f) = n
name_of (sequence n cs) = n
name_of (selector n cs) = n

-- the rest of a sequence, after a child's answer
abbrev pub and_then : {S : Type 0} → S → Answer → String → S × Answer × String → S × Answer × String
and_then s (raised e) name rest = (s, raised e, "")
and_then s (returned success) name rest = rest
and_then s (returned running) name rest = (s, returned running, "")
and_then s (returned failure) name rest = (s, returned failure, name)

-- the rest of a selector
abbrev pub or_else : {S : Type 0} → S → Answer → S × Answer → S × Answer
or_else s (raised e) rest = (s, raised e)
or_else s (returned success) rest = (s, returned success)
or_else s (returned running) rest = (s, returned running)
or_else s (returned failure) rest = rest

-- the next tick of `run`
abbrev pub unless_settled : {S : Type 0} → S → Answer → S × Answer → S × Answer
unless_settled s (raised e) rest = (s, raised e)
unless_settled s (returned running) rest = rest
unless_settled s (returned success) rest = (s, returned success)
unless_settled s (returned failure) rest = (s, returned failure)

unfoldable mutual
  -- `tick`
  pub tick : {S : Type 0} → Node S → S → S × Answer
  tick (action n f) s = f s
  tick (sequence n cs) s = let (s', a, failed) = tick_all cs s in (s', a)
  tick (selector n cs) s = tick_any cs s

  -- `Sequence.tick`: the state, the answer, and the child that failed
  pub tick_all : {S : Type 0} → Children S → S → S × Answer × String
  tick_all leaf s = (s, returned success, "")
  tick_all (also c cs) s = let (s', a) = tick c s in and_then s' a (name_of c) (tick_all cs s')

  -- `Selector.tick`
  pub tick_any : {S : Type 0} → Children S → S → S × Answer
  tick_any leaf s = (s, returned failure)
  tick_any (also c cs) s = let (s', a) = tick c s in or_else s' a (tick_any cs s')

-- `run`, with `max_ticks`
unfoldable pub run : {S : Type 0} → ℕ → Node S → S → S × Answer
run zero root s = (s, returned failure)
run (suc n) root s = let (s', a) = tick root s in unless_settled s' a (run n root s')
