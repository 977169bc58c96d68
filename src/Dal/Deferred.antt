-- ===== src/Dal/Deferred.antt =====
-- src/dal/deferred-transaction.ts: buffered operations that are compiled into one statement.
pub mod Scan
pub mod Merge
pub mod Tx
