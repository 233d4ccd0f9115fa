-- ===== src/Provider.antt =====
-- internal/provider: what a provider of host resources observes.
pub mod Observation
pub mod Oom
pub mod Examples
