-- ===== src/Core.antt =====
-- `src/droidos/core`: the system state machine, the event bus and the configuration.
pub mod States
pub mod Models
pub mod Events
pub mod Config
