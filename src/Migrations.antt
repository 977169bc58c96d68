-- ===== src/Migrations.antt =====
-- The apply side of the migration system (src/migrations).
pub mod Splitter
pub mod Registry
pub mod Manifest
pub mod Io
pub mod Engine
mod Tests
