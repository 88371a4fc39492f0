-- ===== src/Services/SafetyGateway/Examples.antt =====
-- The safety gateway on concrete calls.
use droid_os.Prelude.{ℕ, ◌≡◌, refl, [], ◌∷◌, List, true, false, some}
use droid_os.Core.States.{initial, ready}
use droid_os.Backends.SafetyController
use droid_os.Services.SafetyGateway.{
  Gateway, empty, missing, request_motion_permission, set_power, engage_estop, reset_estop,
}
use droid_os.Services.SafetyGateway.Permission.{may_move, allowed-may_move}
use droid_os.Services.SafetyGateway.Stop.{Op, request, beat, activate, run, stop_persists}
use droid_os.Services.SafetyGateway.Latch.{restart, latch_survives_restart}

abbrev idle : Gateway
idle = record {
  controller = SafetyController.new 1000 0;
  token = empty;
  backend = some false;
  latch = missing;
  writable = true;
  events = [];
  machine = initial ready;
}

allowed-may_move_example :
    (request_motion_permission 10 20 20 30 idle).1.allowed ≡ may_move 10 20 idle.controller
allowed-may_move_example = allowed-may_move 10 20 20 30 idle

abbrev ops : List Op
ops = beat 10 ∷ request 20 20 20 20 ∷ activate 30 ∷ []

stop_persists_example :
    let g' = run ops (engage_estop 5 "button" idle) in
    (g'.controller.power ≡ false)
    × (g'.backend ≡ set_power false g'.backend)
    × ((request_motion_permission 40 41 42 43 g').1.allowed ≡ false)
stop_persists_example = stop_persists 5 "button" idle ops 40 41 42 43 (refl, (refl, (refl, tt)))

latch_survives_restart_example :
    let stopped = restart 1000 50 (initial ready) (some false) (engage_estop 5 "button" idle) in
    let cleared = restart 1000 50 (initial ready) (some false) (reset_estop 5 idle) in
    (stopped.controller.estop ≡ true)
    × (stopped.controller.power ≡ false)
    × ((b t stamp logged : ℕ)
        → (request_motion_permission b t stamp logged stopped).1.allowed ≡ false)
    × (cleared.controller.estop ≡ false)
    × (cleared.controller.faults ≡ [])
latch_survives_restart_example =
    latch_survives_restart 5 "button" idle 1000 50 (initial ready) (some false) refl
