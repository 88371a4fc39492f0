-- ===== src/Services.antt =====
-- `src/droidos/services`: the managed services and the supervisor.
pub mod SafetyGateway
pub mod Lifecycle
pub mod Supervisor
pub mod WorldModel
pub mod Navigation
pub mod Update
pub mod Memory
pub mod Voice
pub mod Diagnostics
