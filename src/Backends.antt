-- ===== src/Backends.antt =====
-- `src/droidos/backends`: the simulated safety microcontroller.
pub mod SafetyController
