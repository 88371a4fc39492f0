-- ===== src/Gait/Policy.antt =====
-- gait/policy.py: loading, validation and inference. Floats are a parameter.
pub mod Types
pub mod Inference
pub mod Loading
pub mod Envelope
pub mod Cleared
mod Examples
