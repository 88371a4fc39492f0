-- ===== src/Executive/Drive/Examples.antt =====
-- A ready droid that drives.
use droid_os.Prelude.{ℕ, ◌≡◌, ◌≢◌, refl, true, false, none, some, ok, [], arith}
use droid_os.Core.States.{initial, ready, active}
use droid_os.Backends.SafetyController
use droid_os.Services.SafetyGateway
use droid_os.Services.SafetyGateway.{empty}
use droid_os.Executive.BehaviourTree.{raised}
use droid_os.Executive.Drive.{Trip, Turn, Clocks, undecided, drive_to}
use droid_os.Executive.Drive.Release.{is_raised, drive_releases}
use droid_os.Executive.Drive.Broken.{broken_drive_keeps_power}

abbrev trip : Trip ℕ
trip = record {
  gateway = record {
    controller = SafetyController.new 1000 0;
    token = empty;
    backend = some false;
    latch = SafetyGateway.missing;
    writable = true;
    events = [];
    machine = initial ready;
  };
  world = none;
  held = false;
  result = undecided;
  label = "lab";
}

abbrev clocks : Clocks
clocks = record { beat = 10; now = 11; stamp = 12; logged = 13; released = 14 }

abbrev arrives : ℕ → Turn ℕ
arrives k = record {
  cancel = false;
  localized = ok true;
  path_blocked = ok false;
  obstacle = none;
  now = 12;
  near = ok true;
  drive_error = none;
}

abbrev breaks : ℕ → Turn ℕ
breaks k = record (arrives k) { near = ok false; drive_error = some "CapabilityError" }

drive_releases_example :
    let (t', a) = drive_to clocks arrives trip in
    (is_raised a ≡ false)
    × (t'.gateway.machine.state ≢ active)
    × (t'.held ≡ true
        → (t'.gateway.controller.power ≡ false)
          × (t'.gateway.backend ≢ some true)
          × (t'.gateway.token ≡ empty))
drive_releases_example = drive_releases clocks arrives trip (λ k. refl)

broken_drive_keeps_power_example :
    let (t', a) = drive_to clocks breaks trip in
    (a ≡ raised "CapabilityError")
    × (t'.gateway.controller.power ≡ true)
    × (t'.gateway.backend ≡ some true)
    × (t'.gateway.machine.state ≡ active)
broken_drive_keeps_power_example =
    broken_drive_keeps_power clocks breaks trip "CapabilityError" refl refl (omega arith) refl refl
      refl refl refl
