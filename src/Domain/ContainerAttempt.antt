-- ===== src/Domain/ContainerAttempt.antt =====
-- internal/domain/model.go, the methods of ContainerAttempt. A method returns the pair that its receiver
-- becomes beside its error; the receiver is not nil.
pub mod Valid
pub mod Operations
pub mod Laws
pub mod Transition
pub mod New
use mydocker.Base.{
  ℕ, Bool, true, false, not, ◌&&◌, ◌||◌, ◌==◌, ◌≡◌, List, [], Option, none, some, Result, ok, err,
  fail_if, ◌>>◌, ◌>>=◌, is_ok, if◌then◌else◌, nat_beq, ltb, option_eq,
}
use mydocker.Text.{Text, text_eq}
use mydocker.Domain.Errors.{Error, ErrorCode, Field, Check, invalid, new_error}
use mydocker.Domain.Identity.{
  ContainerId, AttemptId, validate_sandbox_id, validate_container_id, validate_attempt_id,
}
use mydocker.Domain.AttemptPhase.{
  AttemptPhase, attempt_phase_eq, absent, creating, created, running, stopped, is_valid,
  transition_attempt, is_active_attempt,
}
use mydocker.Domain.SandboxPhase.{ready, sandbox_phase_eq}
use mydocker.Domain.Resources.{resolve_resource_limits}
use mydocker.Domain.Process.{ProcessSpec}
use mydocker.Domain.Conditions.{
  Condition, LifecycleObservation, observation_eq, no_observation, condition_outcome_unknown,
  validate_condition, validate_conditions, validate_observation, has_condition, upsert_condition,
  without_condition, conditions_equal,
}
use mydocker.Domain.Outcome.{
  Outcome, pending, not_applicable, captured, unknown, presence_eq, pending_outcome,
  validate_outcome, outcomes_equal,
}
use mydocker.Domain.Container.{
  ProcessIdentity, identity_eq, validate_identity, StreamReferences, streams_eq, validate_streams,
  ContainerSpec, validate_container_spec, ContainerStatus, Container, Attempt, ContainerAttempt,
}
use mydocker.Domain.Sandbox.{Sandbox, schema_version, initial_generation}
use mydocker.Domain.Sandbox

-- The status that shows an Attempt, at the generations of the Container.
abbrev pub projected : Attempt → ℕ → ℕ → ContainerStatus
projected a generation observed_generation = record {
  phase = a.phase;
  generation = generation;
  observed_generation = observed_generation;
  conditions = a.conditions;
  process_identity = a.process_identity;
  streams = a.streams;
  outcome = a.outcome;
  last_observation = a.last_observation;
}

unfoldable pub project_attempt : ContainerAttempt → ContainerAttempt
project_attempt p = record p {
  container = record (p.container) {
    status =
        projected p.attempt p.container.status.generation p.container.status.observed_generation;
  };
}

unfoldable pub projected_status_equal : ContainerStatus → Attempt → Bool
projected_status_equal s a =
    s.phase == a.phase
    && s.streams == a.streams
    && s.last_observation == a.last_observation
    && conditions_equal s.conditions a.conditions
    && s.process_identity == a.process_identity
    && outcomes_equal s.outcome a.outcome

-- A process identity that is missing, or that its own check refuses.
abbrev pub unsafe_process : Option ProcessIdentity → Bool
unsafe_process none = true
unsafe_process (some i) = not (is_ok (validate_identity i))

unfoldable pub validate_references : ContainerAttempt → Check
validate_references p = do
  fail_if
      (not (nat_beq p.container.version schema_version)
        || not (nat_beq p.attempt.version schema_version))
      (invalid "container_attempt.schema_version")
  validate_container_id p.container.id
  validate_attempt_id p.attempt.id
  validate_sandbox_id p.container.sandbox_id
  fail_if
      (not (p.container.attempt_id == p.attempt.id)
        || not (p.attempt.container_id == p.container.id)
        || not (p.attempt.sandbox_id == p.container.sandbox_id))
      (invalid "container_attempt.identity")
  validate_container_spec p.container.spec

unfoldable pub validate_generations : ContainerAttempt → Check
validate_generations p = do
  fail_if (not (is_valid p.attempt.phase) || not (p.container.status.phase == p.attempt.phase))
      (invalid "container_attempt.phase")
  fail_if
      (not (nat_beq p.container.status.generation initial_generation)
        || ltb p.container.status.generation p.container.status.observed_generation)
      (invalid "container.generation")
  fail_if (p.attempt.phase == creating && not (nat_beq p.container.status.observed_generation 0))
      (invalid "container.observed_generation")
  fail_if
      ((p.attempt.phase == created || p.attempt.phase == running)
        && not (nat_beq p.container.status.observed_generation p.container.status.generation))
      (invalid "container.observed_generation")

unfoldable pub validate_facts : ContainerAttempt → Check
validate_facts p = do
  validate_outcome p.attempt.outcome
  validate_streams p.attempt.streams
  validate_observation p.attempt.last_observation
  validate_conditions p.attempt.conditions
  fail_if (is_active_attempt p.attempt.phase && not (p.attempt.outcome.presence == pending))
      (invalid "attempt.outcome")
  fail_if (p.attempt.phase == stopped && p.attempt.outcome.presence == pending)
      (invalid "attempt.outcome")
  fail_if (p.attempt.phase == running && unsafe_process p.attempt.process_identity)
      (new_error ErrorCode.unsafe_identity (Field.named "attempt.process_identity"))
  fail_if
      (p.attempt.outcome.presence == unknown
        && not (has_condition p.attempt.conditions condition_outcome_unknown))
      (new_error ErrorCode.outcome_unknown (Field.named "attempt.conditions"))
  fail_if (not (projected_status_equal p.container.status p.attempt)) (invalid "container.status")

-- ContainerAttempt.Validate, in three parts.
unfoldable pub validate : ContainerAttempt → Check
unfolding validate_references validate_generations validate_facts
validate p = do validate_references p; validate_generations p; validate_facts p

abbrev pub initial_pair : Sandbox → ContainerId → AttemptId → ContainerSpec → ContainerAttempt
initial_pair sandbox container_id attempt_id spec = record {
  container = record {
    version = schema_version;
    id = container_id;
    sandbox_id = sandbox.id;
    attempt_id = attempt_id;
    spec = spec;
    status = projected initial_attempt initial_generation 0;
  };
  attempt = initial_attempt;
}
  where
    initial_attempt : Attempt
    initial_attempt = record {
      version = schema_version;
      id = attempt_id;
      sandbox_id = sandbox.id;
      container_id = container_id;
      phase = creating;
      conditions = [];
      process_identity = none;
      streams = record { stdin = []; stdout = []; stderr = [] };
      outcome = pending_outcome;
      last_observation = no_observation;
    }

unfoldable pub new_container_attempt :
    Sandbox → ContainerId → AttemptId → ProcessSpec → Text → Text → Result Error ContainerAttempt
new_container_attempt sandbox container_id attempt_id process image_digest rootfs = do
  Sandbox.validate sandbox
  fail_if
      (not (sandbox.status.phase == ready)
        || not (nat_beq sandbox.status.observed_generation sandbox.status.generation))
      (new_error ErrorCode.failed_precondition (Field.named "sandbox.phase"))
  validate_container_id container_id
  validate_attempt_id attempt_id
  limits ← resolve_resource_limits sandbox.spec.resources
  let pair =
      initial_pair sandbox container_id attempt_id (record {
        process = process;
        image_digest = image_digest;
        rootfs = rootfs;
        limits = limits;
      })
  validate pair
  ok pair

-- Which outcomes an edge into a terminal phase may carry, by the phase that it leaves.
abbrev pub misfits : AttemptPhase → Outcome → Bool
misfits creating o = not (o.presence == not_applicable) && not (o.presence == unknown)
misfits created o = not (o.presence == not_applicable) && not (o.presence == unknown)
misfits running o = not (o.presence == captured) && not (o.presence == unknown)
misfits stopped o = o.presence == pending
misfits _ o = false

unfoldable pub validate_transition_outcome : AttemptPhase → AttemptPhase → Outcome → Check
validate_transition_outcome from to outcome = do
  validate_outcome outcome
  if not (to == stopped) && not (to == absent)
      then fail_if (not (outcome.presence == pending)) (invalid "attempt.outcome")
      else fail_if (misfits from outcome) (invalid "attempt.outcome")

-- The candidate where it is valid, and otherwise the pair as it was.
abbrev pub replace_if_valid : ContainerAttempt → ContainerAttempt → ContainerAttempt × Check
replace_if_valid p candidate = elim (validate candidate) [
  | err e ↦ (p, err e)
  | ok _ ↦ (candidate, ok tt)
]

-- Runs the rest where the check passes, and otherwise leaves the pair as it was.
abbrev pub check_first :
    ContainerAttempt → Check → ContainerAttempt × Check → ContainerAttempt × Check
check_first p (err e) rest = (p, err e)
check_first p (ok _) rest = rest

-- The pair after the writes of Transition: a created Attempt has observed its generation.
unfoldable pub moved : ContainerAttempt → AttemptPhase → AttemptPhase → Outcome → ContainerAttempt
unfolding project_attempt
moved p phase next outcome = project_attempt (record {
  container = record (p.container) {
    status = record (p.container.status) {
      observed_generation =
          if next == created
          then p.container.status.generation
          else p.container.status.observed_generation;
    };
  };
  attempt = record (p.attempt) { phase = phase; outcome = outcome };
})

unfoldable pub transition : ContainerAttempt → AttemptPhase → Outcome → ContainerAttempt × Check
transition p next outcome =
    let (phase, error) = transition_attempt p.attempt.phase next in
    check_first p error (
      check_first p (validate_transition_outcome p.attempt.phase next outcome)
        (replace_if_valid p (moved p phase next outcome)))

-- The pair with an Attempt changed and shown again.
abbrev pub with_attempt : ContainerAttempt → Attempt → ContainerAttempt
with_attempt p a = project_attempt (record p { attempt = a })

-- An identity that is already there may only be repeated; a new one is written before the pair is
-- validated, and stays written where that fails.
unfoldable pub record_identity :
    Option ProcessIdentity → ContainerAttempt → ProcessIdentity → ContainerAttempt × Check
unfolding project_attempt
record_identity (some old) p identity =
    if not (old == identity)
    then (p, err (new_error ErrorCode.failed_precondition (Field.named "attempt.process_identity")))
    else (p, ok tt)
record_identity none p identity =
    let identified = with_attempt p (record (p.attempt) { process_identity = some identity }) in
    if p.attempt.phase == stopped || p.attempt.phase == absent
    then (p, err (new_error ErrorCode.failed_precondition (Field.named "attempt.phase")))
    else (identified, validate identified)

unfoldable pub set_process_identity : ContainerAttempt → ProcessIdentity → ContainerAttempt × Check
unfolding record_identity
set_process_identity p identity =
    check_first p (validate_identity identity)
      (record_identity p.attempt.process_identity p identity)

unfoldable pub set_streams : ContainerAttempt → StreamReferences → ContainerAttempt × Check
unfolding project_attempt
set_streams p streams =
    let connected = with_attempt p (record (p.attempt) { streams = streams }) in
    check_first p (validate_streams streams) (connected, validate connected)

unfoldable pub set_conditions : ContainerAttempt → List Condition → ContainerAttempt × Check
unfolding project_attempt
set_conditions p conditions =
    check_first p (validate_conditions conditions)
      (replace_if_valid p (with_attempt p (record (p.attempt) { conditions = conditions })))

unfoldable pub upsert : ContainerAttempt → Condition → ContainerAttempt × Check
unfolding set_conditions
upsert p condition =
    check_first p (validate_condition condition)
      (set_conditions p (upsert_condition p.attempt.conditions condition))

unfoldable pub clear : ContainerAttempt → Text → ContainerAttempt × Check
unfolding set_conditions
clear p type = elim (without_condition p.attempt.conditions type) [
  | err e ↦ (p, err e)
  | ok conditions ↦ set_conditions p conditions
]

unfoldable pub set_last_observation :
    ContainerAttempt → LifecycleObservation → ContainerAttempt × Check
unfolding project_attempt
set_last_observation p observation =
    let observed = with_attempt p (record (p.attempt) { last_observation = observation }) in
    check_first p (validate_observation observation) (
      if ltb observation.event_sequence p.attempt.last_observation.event_sequence
      then (
        p,
        err (new_error ErrorCode.invalid_transition (Field.named "attempt.last_observation")),
      )
      else (observed, validate observed))
