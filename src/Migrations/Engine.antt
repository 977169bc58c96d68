-- ===== src/Migrations/Engine.antt =====
-- src/migrations/engine.ts. A run is a program over one connection (`Io`); `result` is passed
-- along and reaches the caller only when the run returns. Log lines are left out.
mod Defs
mod Run
pub mod Rules
pub mod Durable
pub mod Atomicity
pub mod Agreement
pub mod Outcome
pub mod Report
pub mod Order
pub mod Gate
pub mod Guarded
pub mod FailClosed
pub mod Lock
pub mod Sealed
unfoldable pub use Defs.*
unfoldable pub use Run.*
