-- ===== src/Backends/SafetyController/Watchdog.antt =====
-- The host watchdog.
use droid_os.Prelude.{◌⊎◌, inl, inr, ℕ, ◌≡◌, ◌<◌, ◌+◌, ◌≤◌, true, false, [], arith}
use droid_os.Backends.SafetyController.{
  Controller, request_power_enable, status, movement_permitted, healthy,
}

-- A status taken later than the timeout after the last contact, or without a link, has removed
-- motor power, shows the watchdog as failed, and permits no movement.
pub late_status :
    (now : ℕ) (c : Controller)
    → (c.last_contact + c.watchdog_timeout < now) ⊎ (c.link ≡ false)
    → ((status now c).0.power ≡ false)
      × ((status now c).1.watchdog_ok ≡ false)
      × (movement_permitted (status now c).1 ≡ false)
unfolding status
late_status now c (inl late) = ground arith
late_status now c (inr down) = ground arith

-- A status taken in time, with the link up, leaves the controller as it was.
pub timely_status :
    (now : ℕ) (c : Controller)
    → now ≤ c.last_contact + c.watchdog_timeout
    → c.link ≡ true
    → ((status now c).0 ≡ c) × ((status now c).1.watchdog_ok ≡ true)
unfolding status
timely_status now c h l = ground arith

-- `request_power_enable` does not look at the watchdog: with no other obstacle it closes the
-- contactor however long ago the host was heard, although the next status reports the
-- controller as not healthy and opens the contactor again.
pub stale_request_granted :
    (now : ℕ) (c : Controller)
    → c.alive ≡ true
    → c.estop ≡ false
    → c.faults ≡ []
    → c.link ≡ true
    → c.last_contact + c.watchdog_timeout < now
    → (request_power_enable c ≡ (record c { power = true }, true))
      × (healthy (status now (request_power_enable c).0).1 ≡ false)
      × ((status now (request_power_enable c).0).0 ≡ record c { power = false })
unfolding status request_power_enable
stale_request_granted now c a e f l h = ground arith
