-- ===== src/Domain.antt =====
-- internal/domain: the values of the container lifecycle and their invariants.
pub mod Errors
pub mod Identity
pub mod SandboxPhase
pub mod AttemptPhase
pub mod Resources
pub mod Process
pub mod Outcome
pub mod Conditions
pub mod SandboxSpec
pub mod Sandbox
pub mod Container
pub mod ContainerAttempt
pub mod ActiveAttempt
pub mod Sample
mod Examples
