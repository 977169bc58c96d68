-- ===== src/Dal.antt =====
-- The data access layer (src/dal).
pub mod Deferred
pub mod Client
mod Tests
