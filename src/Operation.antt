-- ===== src/Operation.antt =====
-- internal/operation: the durable identity of an operation, its events, and what a retry does.
pub mod Errors
pub mod Vocabulary
pub mod Target
pub mod Record
pub mod Event
pub mod Resolve
pub mod Sample
mod Examples
