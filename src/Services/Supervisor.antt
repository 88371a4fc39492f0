-- ===== src/Services/Supervisor.antt =====
-- `src/droidos/services/supervisor.py`: readiness, activation in dependency order, boot, shutdown.
pub mod Readiness
pub mod Activation
pub mod Boot
pub mod Restart
mod Examples
