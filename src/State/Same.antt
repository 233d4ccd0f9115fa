-- ===== src/State/Same.antt =====
-- internal/state/memory.go: what an update may not rewrite, as reflect.DeepEqual compares it.
use mydocker.Base.{Bool, ◌&&◌, ◌==◌, List, Eq, discrete_eq, option_eq, nat_beq, ℕ_discrete}
use mydocker.Base.Int.{ℤ-discrete, int_eq}
use mydocker.Text.{Text-discrete, text_eq}
use mydocker.Domain.SandboxSpec.{SandboxSpec}
use mydocker.Domain.Sandbox.{Sandbox}
use mydocker.Domain.Container.{ContainerSpec, ContainerAttempt}
use mydocker.Rollback.Record.{Record}
use mydocker.Ownership.Receipt.{Receipt, Release}
use mydocker.State.RollbackAdvance.{Descriptor-discrete, cause_eq}
use mydocker.State.Records.{OperationRecord}
use mydocker.State.Links.{Receipt-discrete, Release-discrete}
use mydocker.Provider.Oom.{snapshot_eq}

unfoldable pub SandboxSpec-discrete : Discrete SandboxSpec
unfolding Text-discrete ℤ-discrete
SandboxSpec-discrete = hlevel (Text-discrete, ℤ-discrete)

instance abbrev pub sandbox_spec_eq : Eq SandboxSpec
sandbox_spec_eq = discrete_eq SandboxSpec-discrete

unfoldable pub ContainerSpec-discrete : Discrete ContainerSpec
unfolding Text-discrete ℤ-discrete
ContainerSpec-discrete = hlevel (Text-discrete, ℤ-discrete)

instance abbrev pub container_spec_eq : Eq ContainerSpec
container_spec_eq = discrete_eq ContainerSpec-discrete

unfoldable pub Records-discrete : Discrete (List Record)
unfolding Text-discrete ℕ_discrete Descriptor-discrete
Records-discrete = hlevel (Text-discrete, ℕ_discrete, Descriptor-discrete)

instance abbrev pub records_eq : Eq (List Record)
records_eq = discrete_eq Records-discrete

unfoldable pub Receipts-discrete : Discrete (List Receipt)
unfolding Receipt-discrete
Receipts-discrete = hlevel Receipt-discrete

instance abbrev pub receipts_eq : Eq (List Receipt)
receipts_eq = discrete_eq Receipts-discrete

unfoldable pub Releases-discrete : Discrete (List Release)
unfolding Release-discrete
Releases-discrete = hlevel Release-discrete

instance abbrev pub releases_eq : Eq (List Release)
releases_eq = discrete_eq Releases-discrete

unfoldable pub same_sandbox_input : Sandbox → Sandbox → Bool
same_sandbox_input current next =
    current.spec == next.spec && nat_beq current.status.generation next.status.generation

unfoldable pub same_container_attempt_identity_and_spec : ContainerAttempt → ContainerAttempt → Bool
same_container_attempt_identity_and_spec current next =
    nat_beq current.container.version next.container.version
    && nat_beq current.attempt.version next.attempt.version
    && current.container.id == next.container.id
    && current.container.sandbox_id == next.container.sandbox_id
    && current.container.attempt_id == next.container.attempt_id
    && current.attempt.id == next.attempt.id
    && current.attempt.sandbox_id == next.attempt.sandbox_id
    && current.attempt.container_id == next.attempt.container_id
    && nat_beq current.container.status.generation next.container.status.generation
    && current.container.spec == next.container.spec

-- What PutOperation keeps of a terminal record beside its operation.
unfoldable pub same_progress : OperationRecord → OperationRecord → Bool
same_progress current next =
    current.cause == next.cause
    && current.oom_baseline == next.oom_baseline
    && current.deadline == next.deadline
    && current.rollback == next.rollback
    && current.receipts == next.receipts
    && current.releases == next.releases
