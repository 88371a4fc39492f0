-- ===== src/Core/Models.antt =====
-- `src/droidos/core/models.py`: the diagnostic levels, in the order of their severity.
pub data DiagnosticLevel : Type 0 where
  ok warn error stale : DiagnosticLevel
