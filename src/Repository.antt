-- ===== src/Repository.antt =====
-- The repository (src/repository/repository.ts): the single-row writes.
pub mod Columns
pub mod Identity
pub mod Draft
pub mod Statement
pub mod Update
pub mod Remove
pub mod Bounds
pub mod Write
mod Tests
