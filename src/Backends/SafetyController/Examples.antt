-- ===== src/Backends/SafetyController/Examples.antt =====
-- The safety controller on concrete calls.
use droid_os.Prelude.{[], ◌∷◌, List}
use droid_os.Backends.SafetyController.{new}
use droid_os.Backends.SafetyController.Runs.{Op, beat, request, report, estop, clear, run}
use droid_os.Backends.SafetyController.Invariant.{IsPowerSafe, run-IsPowerSafe}

abbrev shift : List Op
shift = beat 100 ∷ request ∷ report "bus" ∷ estop "button" ∷ clear "bus" ∷ []

run-IsPowerSafe_example : IsPowerSafe (run shift (new 1000 0))
run-IsPowerSafe_example = run-IsPowerSafe 1000 0 shift
