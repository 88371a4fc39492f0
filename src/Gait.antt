-- ===== src/Gait.antt =====
-- gait/: the policy that turns commanded velocities into joint targets.
pub mod Policy
