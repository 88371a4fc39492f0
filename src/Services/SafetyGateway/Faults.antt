-- ===== src/Services/SafetyGateway/Faults.antt =====
-- Faults and the loss of the safety link.
use droid_os.Prelude.{ℕ, ◌↔◌, String, ◌≡◌, true, false, some, arith}
use droid_os.Backends.SafetyController
use droid_os.Services.SafetyGateway.{Gateway, set_power, report_fault, set_safety_link, diagnostics}
use droid_os.Core.Models.{DiagnosticLevel}
use droid_os.Services.SafetyGateway.Permission.{may_move}
use droid_os.Backends.SafetyController.Invariant.{is_nil-sorted}

-- A reported fault cuts motor power at the controller and at the backend.
pub report_fault_cuts :
    (now : ℕ) (name : String) (g : Gateway)
    → let g' = report_fault now name g in
      (g'.controller.power ≡ false) × (g'.backend ≡ set_power false g.backend)
unfolding report_fault SafetyController.status SafetyController.report_fault
report_fault_cuts now name g = ground arith

-- A lost safety link cuts motor power at the controller only: a backend that was powered stays so.
pub link_loss_leaves_backend :
    (now : ℕ) (g : Gateway)
    → g.backend ≡ some true
    → let g' = set_safety_link now false g in
      (g'.controller.power ≡ false) × (g'.backend ≡ some true)
unfolding set_safety_link SafetyController.status SafetyController.set_link
link_loss_leaves_backend now g h = ground arith

-- The diagnostic level is OK exactly when the controller could be granted motion on its last contact.
pub diagnostics_ok :
    (now : ℕ) (g : Gateway)
    → ((diagnostics now g).1 ≡ DiagnosticLevel.ok)
      ↔ (may_move g.controller.last_contact now g.controller ≡ true)
unfolding diagnostics SafetyController.status
diagnostics_ok now g = ground (arith, is_nil-sorted g.controller.faults)
