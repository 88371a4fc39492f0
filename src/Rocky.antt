-- ===== src/Rocky.antt =====
-- `rocky`: the assistant that proposes typed actions on the host, of which this models the policy and the executor.
pub mod Policy
pub mod Executor
