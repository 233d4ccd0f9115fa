-- ===== src/Domain/Sample.antt =====
-- Concrete values of the domain and their runs.
use mydocker.Domain.ActiveAttempt.{validate_one_active_attempt}
use mydocker.Domain.AttemptPhase.{transition_attempt, AttemptPhase-discrete}
use mydocker.Domain.SandboxPhase.{transition_sandbox, SandboxPhase-discrete}
use mydocker.Text.FilePath.{is_clean_abs}
use mydocker.Text.Address.{is_ip}
use mydocker.Domain.Conditions.{
  without_condition, validate_condition, upsert_condition, conditions_equal, has_condition,
  LifecycleObservation-discrete, Condition-discrete, validate_conditions, validate_observation,
}
use mydocker.Text.Trim.{trim_space}
use mydocker.Domain.Identity.{validate_id}
use mydocker.Domain.ContainerAttempt.{
  set_process_identity, validate_transition_outcome, project_attempt, projected_status_equal,
  new_container_attempt,
}
use mydocker.Base.{contains, ◌≡◌, refl, true, [], ◌∷◌, ok, List, some, none}
use mydocker.Base.Int.{pos, ℤ-discrete}
use mydocker.Text.{is_control, valid_utf8, bytes, Text-discrete}
use mydocker.Domain.SandboxPhase
use mydocker.Domain.AttemptPhase
use mydocker.Domain.Sandbox
use mydocker.Domain.Sandbox.{Sandbox, validate, new_sandbox, initial_sandbox}
use mydocker.Domain.ContainerAttempt
use mydocker.Domain.ContainerAttempt.New
use mydocker.Domain.Outcome.{
  exit_outcome, pending_outcome, OutcomePresence-discrete, EvidenceState-discrete, outcomes_equal,
  validate_outcome, captured, evidence_false, evidence_unknown, pending, Outcome, OutcomePresence,
}
use mydocker.Domain.ContainerAttempt.Operations.{Operation, moves, identifies, run}
use mydocker.Domain.ContainerAttempt.Valid.{Valid}
use mydocker.Domain.Container.{
  ProcessIdentity-discrete, StreamReferences-discrete, validate_identity, validate_streams,
  validate_container_spec, ContainerAttempt, ProcessIdentity,
}
use mydocker.Domain.Resources.{
  validate_resolved, resolve_resource_limits, validate_resources, Resources,
}
use mydocker.Domain.SandboxSpec.{validate_spec, SandboxSpec}
use mydocker.Domain.Process.{
  new_kill_plan, validate_env_var, validate_termination, validate_process, ProcessSpec,
}

abbrev pub policy : Resources
policy = record {
  requests = record { cpu_request_milli = some (pos 100); memory_request_bytes = none };
  limits = record {
    cpu_limit_milli = some (pos 500);
    memory_limit_bytes = none;
    pids_limit = none;
  };
}

abbrev pub demo_spec : SandboxSpec
demo_spec = record {
  hostname = bytes "demo";
  dns = bytes "8.8.8.8" ∷ [];
  labels = (bytes "app", bytes "web") ∷ [];
  network = record { mode = bytes "none"; attachments = [] };
  resources = policy;
}

abbrev pub demo : Sandbox
demo = initial_sandbox (bytes "sandbox-demo") demo_spec

-- What a run of the domain opens.
unfoldable pub opened : Unit {0}
unfolding new_sandbox validate validate_id trim_space validate_spec validate_resources
    validate_observation validate_conditions valid_utf8 is_ip is_clean_abs SandboxPhase.is_valid
    Text-discrete is_control SandboxPhase-discrete AttemptPhase.is_valid AttemptPhase-discrete
    validate_process validate_termination validate_env_var resolve_resource_limits validate_resolved
    validate_outcome outcomes_equal EvidenceState-discrete OutcomePresence-discrete pending_outcome
    exit_outcome validate_container_spec validate_streams validate_identity
    StreamReferences-discrete ProcessIdentity-discrete Condition-discrete
    LifecycleObservation-discrete has_condition conditions_equal ℤ-discrete
    ContainerAttempt.validate projected_status_equal project_attempt new_container_attempt
    ContainerAttempt.transition validate_transition_outcome transition_attempt
    ContainerAttempt.moved set_process_identity ContainerAttempt.upsert Sandbox.transition
    transition_sandbox upsert_condition validate_condition contains without_condition
    validate_one_active_attempt new_kill_plan
opened = tt

pub new_demo : new_sandbox (bytes "sandbox-demo") demo_spec ≡ ok demo
unfolding opened
new_demo = refl

abbrev pub ready_demo : Sandbox
ready_demo = Sandbox.moved demo SandboxPhase.ready SandboxPhase.ready

pub ready_demo-Valid : Sandbox.validate ready_demo ≡ ok tt
unfolding opened
ready_demo-Valid = refl

abbrev pub sleep : ProcessSpec
sleep = record {
  argv = bytes "/bin/sleep" ∷ bytes "30" ∷ [];
  environment = record { name = bytes "HOME"; value = bytes "/" } ∷ [];
  working_directory = bytes "/";
  termination = record {
    signal = bytes "SIGTERM";
    grace_period = pos 2000000000;
    escalation_signal = bytes "SIGKILL";
  };
}

abbrev pub execution : ContainerAttempt
execution =
    New.pair ready_demo (bytes "container-demo") (bytes "attempt-demo") sleep [] (bytes "rootfs-v1")

pub new_execution :
    new_container_attempt ready_demo
      (bytes "container-demo")
      (bytes "attempt-demo")
      sleep
      []
      (bytes "rootfs-v1")
    ≡ ok execution
unfolding opened
new_execution = refl

abbrev pub identity : ProcessIdentity
identity = record { verified = true; handle = bytes "pidfd-7"; evidence = bytes "cgroup" }

abbrev pub exited : Outcome
exited = record {
  presence = captured;
  exit_code = some (pos 23);
  signal = [];
  oom = evidence_false;
  started_at = some (pos 5);
  finished_at = some (pos 9);
  running_duration = some (pos 4);
}

abbrev pub blank : OutcomePresence → Outcome
blank presence = record {
  presence = presence;
  exit_code = none;
  signal = [];
  oom = evidence_unknown;
  started_at = none;
  finished_at = none;
  running_duration = none;
}

abbrev pub life : List Operation
life =
    moves AttemptPhase.created (blank pending)
    ∷ identifies identity
    ∷ moves AttemptPhase.running (blank pending)
    ∷ moves AttemptPhase.stopped exited
    ∷ []

pub life_ends :
    ((run execution life).attempt.phase ≡ AttemptPhase.stopped)
    × ((run execution life).container.status.outcome ≡ exited)
unfolding opened
life_ends = (refl, refl)

pub stopped_execution-Valid : Valid (run execution life)
unfolding opened
stopped_execution-Valid = refl
