-- ===== src/Executive.antt =====
-- `src/droidos/executive`: behaviour trees, and the drive to a place.
pub mod BehaviourTree
pub mod Drive
pub mod Tasks
pub mod Droid
pub mod Handlers
pub mod Intents
