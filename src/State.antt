-- ===== src/State.antt =====
-- internal/state: what a persisted record may be, what it may become, and the transactions of the store.
pub mod Errors
pub mod Advance
pub mod RollbackAdvance
pub mod Records
pub mod Receipts
pub mod Links
pub mod Validation
pub mod Same
pub mod Store
pub mod Transaction
pub mod Retention
pub mod Progress
pub mod Graph
pub mod Whole
pub mod Memory
pub mod Write
pub mod Reachable
pub mod Invariant
mod Sample
mod Examples
mod StoreExamples
