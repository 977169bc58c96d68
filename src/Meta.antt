-- ===== src/Meta.antt =====
-- src/meta/: the part on schema sovereignty.
pub mod SchemaDomain
mod Tests
