-- ===== src/Services/SafetyGateway/Latch.antt =====
-- services/safety_gateway.py: what a restart of the process keeps of the emergency stop.
use droid_os.Prelude.{ℕ, String, ◌≡◌, Bool, true, false, Option, [], arith}
use droid_os.Core.States.{StateMachine}
use droid_os.Backends.SafetyController
use droid_os.Services.SafetyGateway.{
  Gateway, missing, empty, engage_estop, reset_estop, on_configure, request_motion_permission,
}
use droid_os.Services.SafetyGateway.Permission.{allowed-may_move}

-- A new process: a fresh controller and gateway, and the latch file that the old one left.
abbrev pub restart : (timeout now : ℕ) → StateMachine → Option Bool → Gateway → Gateway
restart timeout now machine backend old = on_configure now (record {
  controller = SafetyController.new timeout now;
  token = empty;
  backend = backend;
  latch = old.latch;
  writable = old.writable;
  events = [];
  machine = machine;
})

-- A gateway that starts on the file of one that was stopped, and that could write it, is stopped:
-- the controller is latched without power, and a request for permission is refused. After a reset
-- before the restart the controller starts without the stop and without faults.
pub latch_survives_restart :
    (now : ℕ) (reason : String) (g : Gateway) (timeout start : ℕ) (m : StateMachine)
    (backend : Option Bool)
    → g.writable ≡ true
    → let stopped = restart timeout start m backend (engage_estop now reason g) in
      let cleared = restart timeout start m backend (reset_estop now g) in
      (stopped.controller.estop ≡ true)
      × (stopped.controller.power ≡ false)
      × ((b t stamp logged : ℕ)
          → (request_motion_permission b t stamp logged stopped).1.allowed ≡ false)
      × (cleared.controller.estop ≡ false)
      × (cleared.controller.faults ≡ [])
unfolding engage_estop reset_estop on_configure SafetyController.engage_estop
    SafetyController.reset_estop
latch_survives_restart now reason g timeout start m backend w = (
  ground arith,
  ground arith,
  λ b t stamp logged. ground (
    arith,
    allowed-may_move b t stamp logged (restart timeout start m backend (engage_estop now reason g)),
  ),
  ground arith,
  ground arith,
)

-- Where the latch file cannot be written the error is swallowed, and the stop is not kept: a restart
-- from a state without a latch file starts without the emergency stop.
pub unwritten_latch_is_lost :
    (now : ℕ) (reason : String) (g : Gateway) (timeout start : ℕ) (m : StateMachine)
    (backend : Option Bool)
    → g.writable ≡ false
    → g.latch ≡ missing
    → (restart timeout start m backend (engage_estop now reason g)).controller.estop ≡ false
unfolding engage_estop on_configure
unwritten_latch_is_lost now reason g timeout start m backend w l = ground arith
