-- ===== src/Audit.antt =====
-- The audit (src/audit).
pub mod Delta
mod Tests
