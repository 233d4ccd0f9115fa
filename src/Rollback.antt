-- ===== src/Rollback.antt =====
-- internal/rollback/rollback.go: a stack of named inverse operations, run newest first until each has succeeded.
pub mod Diagnostic
pub mod Record
pub mod Stack
pub mod Run
pub mod Recovery
mod Examples
