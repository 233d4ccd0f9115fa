-- ===== src/Domain/Examples.antt =====
-- The theorems of the domain at concrete values.
use mydocker.Domain.SandboxPhase.Graph.{transition_sandbox-⟶}
use mydocker.Domain.Resources.Laws.{validate_resources-eq-ok, IsPolicy}
use mydocker.Domain.ActiveAttempt.Laws.{validate_one_active_attempt-eq-ok, IsHistory}
use mydocker.Domain.SandboxPhase.{transition_sandbox}
use mydocker.Domain.Resources.{validate_resources}
use mydocker.Domain.ContainerAttempt.Laws.{apply-Keeps, new_container_attempt-run, Keeps}
use mydocker.Domain.ContainerAttempt.{new_container_attempt}
use mydocker.Domain.AttemptPhase.{transition_attempt}
use mydocker.Domain.ActiveAttempt.{validate_one_active_attempt}
use mydocker.Base.{false, is_ok, ◌≤◌, ◌↔◌, ◌+◌, List, ◌≡◌, refl, [], ◌∷◌, ok}
use mydocker.Domain.Outcome.{not_applicable}
use mydocker.Domain.Container.{StreamReferences}
use mydocker.Domain.Sandbox.Operations.{sets_pair}
use mydocker.Domain.ContainerAttempt.Valid.{Valid}
use mydocker.Text.{bytes}
use mydocker.Domain.Sample.{
  opened, policy, ready_demo, ready_demo-Valid, sleep, execution, new_execution, exited, blank,
  life, stopped_execution-Valid,
}
use mydocker.Domain.SandboxPhase
use mydocker.Domain.AttemptPhase
use mydocker.Domain.AttemptPhase.Graph.{progress, progress-Accepts}
use mydocker.Domain.SandboxPhase.Graph
use mydocker.Domain.Sandbox
use mydocker.Domain.Sandbox.Laws.{
  at_target, new_sandbox-run, sandbox_apply-Keeps, sandbox_transition-eq-ok,
}
use mydocker.Domain.ContainerAttempt
use mydocker.Domain.ContainerAttempt.Operations.{connects, apply, run}
use mydocker.Domain.ContainerAttempt.Laws
use mydocker.Domain.ContainerAttempt.Transition.{Moved, MayMove, transition-eq-ok, removal_replaces}
use mydocker.Domain.ContainerAttempt.New.{MayCreate, new_container_attempt-eq-ok}

transition_example :
    (((ContainerAttempt.transition (run execution life) AttemptPhase.absent exited).1 ≡ ok tt)
      ↔ MayMove (run execution life) AttemptPhase.absent exited)
    × ((ContainerAttempt.transition (run execution life) AttemptPhase.absent exited).1 ≡ ok tt
        → Moved
            (run execution life)
            AttemptPhase.absent
            exited
            (ContainerAttempt.transition (run execution life) AttemptPhase.absent exited).0)
    × (is_ok (ContainerAttempt.transition (run execution life) AttemptPhase.absent exited).1 ≡ false
        → (ContainerAttempt.transition (run execution life) AttemptPhase.absent exited).0
          ≡ run execution life)
transition_example =
    transition-eq-ok (run execution life) AttemptPhase.absent exited stopped_execution-Valid

removal_replaces_example :
    ((ContainerAttempt.transition (run execution life) AttemptPhase.absent (blank not_applicable)).1
      ≡ ok tt)
    × ((ContainerAttempt.transition
          (run execution life)
          AttemptPhase.absent
          (blank not_applicable)).0.attempt.outcome
        ≡ blank not_applicable)
unfolding opened
removal_replaces_example =
    removal_replaces (run execution life) (blank not_applicable) stopped_execution-Valid refl refl
      (λ e. cc) (λ e. cc)

abbrev no_streams : StreamReferences
no_streams = record { stdin = []; stdout = []; stderr = [] }

pair_apply_example : Keeps (run execution life) (apply (run execution life) (connects no_streams))
pair_apply_example = apply-Keeps (run execution life) (connects no_streams) stopped_execution-Valid

new_execution_example :
    Valid (run execution life)
    × ContainerAttempt.Laws.Extends execution (run execution life)
    × ContainerAttempt.Laws.Extends (run execution life) (run (run execution life) life)
new_execution_example =
    new_container_attempt-run ready_demo (bytes "container-demo") (bytes "attempt-demo") sleep []
      (bytes "rootfs-v1") life life new_execution

new_container_attempt_example :
    (new_container_attempt ready_demo
        (bytes "container-demo")
        (bytes "attempt-demo")
        sleep
        []
        (bytes "rootfs-v1")
      ≡ ok execution)
    ↔ (MayCreate ready_demo
          (bytes "container-demo")
          (bytes "attempt-demo")
          sleep
          []
          (bytes "rootfs-v1")
        × (execution ≡ execution))
new_container_attempt_example =
    new_container_attempt-eq-ok ready_demo (bytes "container-demo") (bytes "attempt-demo") sleep []
      (bytes "rootfs-v1") {p = execution}

sandbox_transition_example :
    (((Sandbox.transition ready_demo SandboxPhase.stopping).1 ≡ ok tt)
      ↔ SandboxPhase.Graph.◌⟶◌ SandboxPhase.ready SandboxPhase.stopping)
    × ((Sandbox.transition ready_demo SandboxPhase.stopping).1 ≡ ok tt
        → (Sandbox.transition ready_demo SandboxPhase.stopping).0
          ≡ at_target ready_demo SandboxPhase.stopping)
    × (is_ok (Sandbox.transition ready_demo SandboxPhase.stopping).1 ≡ false
        → (Sandbox.transition ready_demo SandboxPhase.stopping).0 ≡ ready_demo)
sandbox_transition_example =
    sandbox_transition-eq-ok ready_demo SandboxPhase.stopping ready_demo-Valid

sandbox_apply_example :
    Sandbox.Laws.Keeps ready_demo
      (Sandbox.Operations.apply ready_demo (sets_pair (bytes "c") (bytes " ")))
sandbox_apply_example =
    sandbox_apply-Keeps ready_demo (sets_pair (bytes "c") (bytes " ")) ready_demo-Valid

abbrev steps : List Sandbox.Operations.Operation
steps = Sandbox.Operations.moves SandboxPhase.ready ∷ sets_pair (bytes "c") (bytes "a") ∷ []

progress_example : 2 + progress AttemptPhase.creating ≤ progress AttemptPhase.running
unfolding opened
progress_example =
    progress-Accepts AttemptPhase.creating (AttemptPhase.created ∷ AttemptPhase.running ∷ [])
      (refl, (λ e. cc), (refl, (λ e. cc), tt))

one_active_example :
    (validate_one_active_attempt (execution ∷ run execution life ∷ []) ≡ ok tt)
    ↔ IsHistory (execution ∷ run execution life ∷ [])
one_active_example = validate_one_active_attempt-eq-ok (execution ∷ run execution life ∷ [])

validate_resources_example : (validate_resources policy ≡ ok tt) ↔ IsPolicy policy
validate_resources_example = validate_resources-eq-ok policy
