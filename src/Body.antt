-- ===== src/Body.antt =====
-- `src/droidos/body`: what a body package declares.
pub mod Capabilities
pub mod Manifest
pub mod Loader
