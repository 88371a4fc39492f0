-- ===== src/Backends/SafetyController/Invariant.antt =====
-- backends/safety_controller.py: the stop, the faults and the link, while motor power is on.
use droid_os.Prelude.{
  sorted, insert_sorted, ℕ, String, ◌≡◌, refl, true, false, List, [], ◌∷◌, arith, is_nil,
}
use droid_os.Backends.SafetyController.{Controller, new, request_power_enable, status, healthy}
use droid_os.Backends.SafetyController.Runs.{Op, clear, apply, run}

-- With motor power on, the controller is alive and linked, and has neither an emergency stop nor a fault.
pub record IsPowerSafe (c : Controller) : Type 0 where
  pub alive : c.power ≡ true → c.alive ≡ true
  pub no_estop : c.power ≡ true → c.estop ≡ false
  pub no_faults : c.power ≡ true → c.faults ≡ []
  pub linked : c.power ≡ true → c.link ≡ true

pub apply-IsPowerSafe : (op : Op) (c : Controller) → IsPowerSafe c → IsPowerSafe (apply op c)
unfolding apply
apply-IsPowerSafe (clear name) c h = record {
  alive = h.alive;
  no_estop = h.no_estop;
  no_faults = λ on. ground (arith, h.no_faults on);
  linked = h.linked;
}
apply-IsPowerSafe op c h = ground arith

run-IsPowerSafe_from : (ops : List Op) (c : Controller) → IsPowerSafe c → IsPowerSafe (run ops c)
unfolding run
run-IsPowerSafe_from [] c h = h
run-IsPowerSafe_from (op ∷ ops) c h =
    run-IsPowerSafe_from ops (apply op c) (apply-IsPowerSafe op c h)

-- After any calls on a new controller, motor power is on only if the controller is alive and linked
-- and has neither an emergency stop nor a fault.
pub run-IsPowerSafe : (timeout now : ℕ) (ops : List Op) → IsPowerSafe (run ops (new timeout now))
run-IsPowerSafe timeout now ops = run-IsPowerSafe_from ops (new timeout now) (ground arith)

is_nil-insert_sorted : (f : String) (fs : List String) → is_nil (insert_sorted f fs) ≡ false
is_nil-insert_sorted f [] = refl
is_nil-insert_sorted f (g ∷ gs) = ground arith

pub is_nil-sorted : (fs : List String) → is_nil (sorted fs) ≡ is_nil fs
is_nil-sorted [] = refl
is_nil-sorted (f ∷ fs) = is_nil-insert_sorted f (sorted fs)

-- A controller that reports itself healthy grants a request for motor power, closing the contactor,
-- and every other part of it is as it was.
pub healthy-request_power_enable :
    (now : ℕ) (c : Controller)
    → healthy (status now c).1 ≡ true
    → request_power_enable (status now c).0 ≡ (record c { power = true }, true)
unfolding status request_power_enable
healthy-request_power_enable now c h = ground (arith, is_nil-sorted c.faults)
