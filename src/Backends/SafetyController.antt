-- ===== src/Backends/SafetyController.antt =====
-- `src/droidos/backends/safety_controller.py`: the safety controller, which owns the motor-power
-- contactor. A method returns the new controller. The readings of `time.time()` are arguments, whole
-- numbers of a fixed unit (the source has float seconds, which it only subtracts and compares).
-- A set of fault names is a list in which `add` repeats nothing.
mod Runs
pub mod Invariant
pub mod Latch
pub mod Watchdog
mod Examples
use text.Mathlib.Text.{starts_with}
use droid_os.Prelude.Int.{ℤ, pos, sub_ℕ, ltb_ℤ, leb_ℤ}
use droid_os.Prelude.{
  ℕ, zero, String, ◌^^◌, Bool, true, false, not, ◌&&◌, ◌||◌, Option, none, some, List, [], ◌∷◌,
  is_nil, keep, str_eq, sorted, contains, if◌then◌else◌,
}

pub record SafetyControllerState : Type 0 where
  pub alive : Bool
  pub estop_engaged : Bool
  pub power_enabled : Bool
  pub watchdog_ok : Bool
  pub faults : List String
  pub last_host_contact_age_s : ℤ

abbrev pub movement_permitted : SafetyControllerState → Bool
movement_permitted s =
    s.alive && s.watchdog_ok && not s.estop_engaged && is_nil s.faults && s.power_enabled

abbrev pub healthy : SafetyControllerState → Bool
healthy s = s.alive && s.watchdog_ok && not s.estop_engaged && is_nil s.faults

pub record Controller : Type 0 where
  pub alive : Bool
  pub estop : Bool
  pub power : Bool
  pub faults : List String
  pub watchdog_timeout : ℕ
  pub last_contact : ℕ
  pub link : Bool

-- `SimulatedSafetyController(watchdog_timeout_s)`, made when the clock reads `now`
abbrev pub new : ℕ → ℕ → Controller
new timeout now = record {
  alive = true;
  estop = false;
  power = false;
  faults = [];
  watchdog_timeout = timeout;
  last_contact = now;
  link = true;
}

-- `set.add`
abbrev pub add : String → List String → List String
add f fs = if contains f fs then fs else f ∷ fs

abbrev pub is_estop_fault : String → Bool
is_estop_fault f = starts_with f "estop:"

abbrev pub heartbeat : ℕ → Controller → Controller
heartbeat now c = record c { last_contact = now }

-- `now or time.time()`: an argument that is missing or 0 is replaced by the clock's reading
abbrev pub or_clock : Option ℕ → ℕ → ℕ
or_clock none clock = clock
or_clock (some zero) clock = clock
or_clock (some now) clock = now

unfoldable pub check_watchdog : ℕ → Controller → Controller
check_watchdog now c =
    let age = sub_ℕ now c.last_contact in
    if not c.link || ltb_ℤ (pos c.watchdog_timeout) age then record c { power = false } else c

unfoldable pub set_link : Bool → Controller → Controller
set_link up c = record c { link = up; power = if not up then false else c.power }

unfoldable pub engage_estop : String → Controller → Controller
engage_estop reason c = record c {
  estop = true;
  power = false;
  faults = if str_eq reason "" then c.faults else add ("estop:" ^^ reason) c.faults;
}

unfoldable pub reset_estop : Controller → Controller
reset_estop c = record c { estop = false; faults = keep (λ f. not (is_estop_fault f)) c.faults }

-- the new controller, and what the call returns
unfoldable pub request_power_enable : Controller → Controller × Bool
request_power_enable c =
    if c.estop || not c.alive || not (is_nil c.faults) || not c.link
    then (c, false)
    else (record c { power = true }, true)

unfoldable pub disable_power : Controller → Controller
disable_power c = record c { power = false }

unfoldable pub report_fault : String → Controller → Controller
report_fault name c = record c { faults = add name c.faults; power = false }

-- `set.discard`
unfoldable pub clear_fault : String → Controller → Controller
clear_fault name c = record c { faults = keep (λ f. not (str_eq f name)) c.faults }

unfoldable pub clear_all_faults : Controller → Controller
clear_all_faults c = record c { faults = keep is_estop_fault c.faults }

-- the effective `now` is given; the watchdog runs first
unfoldable pub status : ℕ → Controller → Controller × SafetyControllerState
unfolding check_watchdog
status now c =
    let c' = check_watchdog now c in
    let age = sub_ℕ now c'.last_contact in
    (
      c',
      record {
        alive = c'.alive && c'.link;
        estop_engaged = c'.estop;
        power_enabled = c'.power;
        watchdog_ok = leb_ℤ age (pos c'.watchdog_timeout) && c'.link;
        faults = sorted c'.faults;
        last_host_contact_age_s = age;
      },
    )
