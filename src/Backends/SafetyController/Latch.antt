-- ===== src/Backends/SafetyController/Latch.antt =====
-- The emergency-stop latch.
use droid_os.Prelude.{
  ℕ, String, ◌≡◌, refl, Bool, true, false, not, List, [], ◌∷◌, arith, keep, is_nil, All, ◌&&◌,
}
use text.Mathlib.TextPositions.{starts_with-append}
use droid_os.Backends.SafetyController.{
  Controller, is_estop_fault, engage_estop, reset_estop, request_power_enable, status,
  movement_permitted,
}
use droid_os.Backends.SafetyController.Runs.{Op, reset, apply, run}

abbrev pub is_reset : Op → Bool
is_reset reset = true
is_reset _ = false

-- No call of the sequence resets the latch.
abbrev pub NoReset : List Op → Type 0
NoReset ops = All (λ op. is_reset op ≡ false) ops

pub record IsLatched (c : Controller) : Type 0 where
  pub estop : c.estop ≡ true
  pub power : c.power ≡ false

apply-IsLatched :
    (op : Op) (c : Controller) → is_reset op ≡ false → IsLatched c → IsLatched (apply op c)
unfolding apply
apply-IsLatched reset c n h = cc
apply-IsLatched op c n h = ground arith

run-IsLatched : (ops : List Op) (c : Controller) → NoReset ops → IsLatched c → IsLatched (run ops c)
unfolding run
run-IsLatched [] c n h = h
run-IsLatched (op ∷ ops) c n h = run-IsLatched ops (apply op c) n.1 (apply-IsLatched op c n.0 h)

engage-IsLatched : (reason : String) (c : Controller) → IsLatched (engage_estop reason c)
unfolding engage_estop
engage-IsLatched reason c = record { estop = refl; power = refl }

refused :
    (now : ℕ) (c : Controller)
    → IsLatched c
    → ((request_power_enable c).1 ≡ false)
      × ((status now c).1.estop_engaged ≡ true)
      × (movement_permitted (status now c).1 ≡ false)
unfolding request_power_enable status
refused now c h = ground arith

-- After an emergency stop, whatever calls follow, so long as none resets the latch: motor power is
-- off, a request for it is refused, and the status shows the stop and permits no movement.
pub stop_holds :
    (reason : String) (c : Controller) (ops : List Op) (now : ℕ)
    → NoReset ops
    → let c' = run ops (engage_estop reason c) in
      (c'.power ≡ false)
      × ((request_power_enable c').1 ≡ false)
      × ((status now c').1.estop_engaged ≡ true)
      × (movement_permitted (status now c').1 ≡ false)
stop_holds reason c ops now n =
    let held = run-IsLatched ops (engage_estop reason c) n (engage-IsLatched reason c) in
    let (r, e, m) = refused now (run ops (engage_estop reason c)) held in (held.power, r, e, m)

-- The faults that an emergency stop did not set.
abbrev pub own_faults : Controller → List String
own_faults c = keep (λ f. not (is_estop_fault f)) c.faults

-- Resetting right after an emergency stop undoes it: the marks of emergency stops are gone, every
-- other fault is there as before, power stays off, and nothing else changes.
pub reset-engage :
    (reason : String) (c : Controller)
    → reset_estop (engage_estop reason c)
      ≡ record c { estop = false; power = false; faults = own_faults c }
unfolding reset_estop engage_estop
reset-engage reason c = ground (arith, starts_with-append "estop:" reason)

-- After a reset, power is granted exactly when the controller is alive and linked and has no fault
-- left that is not an emergency stop's.
pub request-reset :
    (c : Controller)
    → (request_power_enable (reset_estop c)).1 ≡ (c.alive && c.link && is_nil (own_faults c))
unfolding reset_estop request_power_enable
request-reset c = ground arith
