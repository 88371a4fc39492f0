-- ===== src/Backends/SafetyController/Runs.antt =====
-- Sequences of calls of the controller.
use droid_os.Prelude.{ℕ, String, Bool, List, [], ◌∷◌}
use droid_os.Backends.SafetyController.{
  Controller, heartbeat, check_watchdog, set_link, engage_estop, reset_estop, request_power_enable,
  disable_power, report_fault, clear_fault, clear_all_faults, status,
}

-- A call of the controller's interface, with the clock's reading where the call takes one.
pub data Op : Type 0 where
  beat watch read : ℕ → Op
  link_to : Bool → Op
  estop report clear : String → Op
  reset request cut clear_all : Op

unfoldable pub apply : Op → Controller → Controller
unfolding check_watchdog set_link engage_estop reset_estop request_power_enable disable_power
    report_fault clear_fault clear_all_faults status
apply (beat now) c = heartbeat now c
apply (watch now) c = check_watchdog now c
apply (read now) c = (status now c).0
apply (link_to up) c = set_link up c
apply (estop reason) c = engage_estop reason c
apply (report name) c = report_fault name c
apply (clear name) c = clear_fault name c
apply reset c = reset_estop c
apply request c = (request_power_enable c).0
apply cut c = disable_power c
apply clear_all c = clear_all_faults c

unfoldable pub run : List Op → Controller → Controller
run [] c = c
run (op ∷ ops) c = run ops (apply op c)
