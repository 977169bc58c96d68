-- ===== src/SchemaDiff.antt =====
-- The comparison of entity and database schemas (src/schema-diff).
pub mod Naming
pub mod Types
pub mod Renames
pub mod Drift
mod Tests
