-- ===== src/Query.antt =====
-- The query builder and what feeds it (src/query).
pub mod Dsl
pub mod Writer
pub mod Render
pub mod ListFilters
pub mod Clauses
mod Tests
