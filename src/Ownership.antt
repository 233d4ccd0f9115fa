-- ===== src/Ownership.antt =====
-- internal/ownership/model.go: the receipts of host resources, their inverses, and the order of acquisition.
pub mod Vocabulary
pub mod Receipt
pub mod Inverse
pub mod Profile
pub mod Sample
mod Examples
