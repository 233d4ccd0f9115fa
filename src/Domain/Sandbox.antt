-- ===== src/Domain/Sandbox.antt =====
-- internal/domain/model.go, the Sandbox. A method returns the Sandbox that its receiver becomes beside
-- its error; the receiver is not nil. A clone is the value itself.
pub mod Operations
pub mod Laws
use mydocker.Base.{
  bool_eq, ℕ, Bool, true, false, not, ◌&&◌, ◌||◌, ◌==◌, ◌≡◌, List, [], Option, none, some, Result,
  ok, err, fail_if, ◌>>◌, ◌>>=◌, is_none, is_some, if◌then◌else◌, nat_beq, ltb,
}
use mydocker.Text.{Text, Text-discrete, text_eq}
use mydocker.Domain.Errors.{Error, ErrorCode, Field, Check, invalid, new_error}
use mydocker.Domain.Identity.{
  SandboxId, ContainerId, AttemptId, validate_sandbox_id, validate_container_id,
  validate_attempt_id,
}
use mydocker.Domain.SandboxPhase.{
  SandboxPhase, SandboxPhase-discrete, sandbox_phase_eq, creating, ready, is_valid,
  transition_sandbox,
}
use mydocker.Domain.SandboxSpec.{SandboxSpec, validate_spec}
use mydocker.Domain.Conditions.{
  Condition, LifecycleObservation, no_observation, validate_condition, validate_conditions,
  validate_observation, upsert_condition, without_condition,
}

abbrev pub schema_version : ℕ
schema_version = 1

abbrev pub initial_generation : ℕ
initial_generation = 1

pub record SandboxStatus : Type 0 where
  pub phase : SandboxPhase
  pub generation : ℕ
  pub observed_generation : ℕ
  pub conditions : List Condition
  pub current_container_id : Option ContainerId
  pub current_attempt_id : Option AttemptId
  pub last_observation : LifecycleObservation

pub record Sandbox : Type 0 where
  pub version : ℕ
  pub id : SandboxId
  pub spec : SandboxSpec
  pub status : SandboxStatus

-- The two references, validated where there is a current Container. They are nil together, so the
-- Attempt reference is there where the Container reference is.
abbrev pub validate_current : Option ContainerId → Option AttemptId → Check
validate_current (some c) (some a) = do validate_container_id c; validate_attempt_id a
validate_current _ _ = ok tt

unfoldable pub validate : Sandbox → Check
validate s = do
  fail_if (not (nat_beq s.version schema_version)) (invalid "schema_version")
  validate_sandbox_id s.id
  validate_spec s.spec
  fail_if (not (is_valid s.status.phase)) (invalid "sandbox.phase")
  fail_if
      (not (nat_beq s.status.generation initial_generation)
        || ltb s.status.generation s.status.observed_generation)
      (invalid "sandbox.generation")
  fail_if
      (s.status.phase == ready && not (nat_beq s.status.observed_generation s.status.generation))
      (invalid "sandbox.observed_generation")
  fail_if (not (is_none s.status.current_container_id == is_none s.status.current_attempt_id))
      (invalid "sandbox.current")
  validate_current s.status.current_container_id s.status.current_attempt_id
  validate_observation s.status.last_observation
  validate_conditions s.status.conditions

abbrev pub initial_sandbox : SandboxId → SandboxSpec → Sandbox
initial_sandbox id spec = record {
  version = schema_version;
  id = id;
  spec = spec;
  status = record {
    phase = creating;
    generation = initial_generation;
    observed_generation = 0;
    conditions = [];
    current_container_id = none;
    current_attempt_id = none;
    last_observation = no_observation;
  };
}

unfoldable pub new_sandbox : SandboxId → SandboxSpec → Result Error Sandbox
new_sandbox id spec = do validate (initial_sandbox id spec); ok (initial_sandbox id spec)

-- The candidate where it is valid, and otherwise the Sandbox as it was.
abbrev pub replace_if_valid : Sandbox → Sandbox → Sandbox × Check
replace_if_valid s candidate = elim (validate candidate) [
  | err e ↦ (s, err e)
  | ok _ ↦ (candidate, ok tt)
]

-- Runs the rest where the check passes, and otherwise leaves the Sandbox as it was.
abbrev pub check_first : Sandbox → Check → Sandbox × Check → Sandbox × Check
check_first s (err e) rest = (s, err e)
check_first s (ok _) rest = rest

abbrev pub moved : Sandbox → SandboxPhase → SandboxPhase → Sandbox
moved s phase next = record s {
  status = record (s.status) {
    phase = phase;
    observed_generation =
        if next == ready then s.status.generation else s.status.observed_generation;
  };
}

unfoldable pub transition : Sandbox → SandboxPhase → Sandbox × Check
transition s next =
    let (phase, error) = transition_sandbox s.status.phase next in
    check_first s error (replace_if_valid s (moved s phase next))

-- The references are written before the Sandbox is validated, and stay written where that fails.
unfoldable pub set_current_pair : Sandbox → ContainerId → AttemptId → Sandbox × Check
set_current_pair s container_id attempt_id =
    let named = record s {
      status = record (s.status) {
        current_container_id = some container_id;
        current_attempt_id = some attempt_id;
      };
    } in
    check_first s (validate_container_id container_id)
      (check_first s (validate_attempt_id attempt_id) (named, validate named))

-- Both references are there and equal to these.
abbrev pub is_current : Option ContainerId → Option AttemptId → ContainerId → AttemptId → Bool
is_current (some c) (some a) container_id attempt_id = c == container_id && a == attempt_id
is_current _ _ container_id attempt_id = false

unfoldable pub clear_current_pair : Sandbox → ContainerId → AttemptId → Sandbox × Check
clear_current_pair s container_id attempt_id =
    let cleared = record s {
      status = record (s.status) { current_container_id = none; current_attempt_id = none };
    } in
    if not
      (is_current s.status.current_container_id s.status.current_attempt_id container_id attempt_id)
    then (s, err (new_error ErrorCode.failed_precondition (Field.named "sandbox.current")))
    else (cleared, validate cleared)

unfoldable pub set_last_observation : Sandbox → LifecycleObservation → Sandbox × Check
set_last_observation s observation =
    let observed = record s { status = record (s.status) { last_observation = observation } } in
    check_first s (validate_observation observation) (
      if ltb observation.event_sequence s.status.last_observation.event_sequence
      then (
        s,
        err (new_error ErrorCode.invalid_transition (Field.named "sandbox.last_observation")),
      )
      else (observed, validate observed))

unfoldable pub set_conditions : Sandbox → List Condition → Sandbox × Check
set_conditions s conditions =
    check_first s (validate_conditions conditions)
      (replace_if_valid s (record s { status = record (s.status) { conditions = conditions } }))

unfoldable pub upsert : Sandbox → Condition → Sandbox × Check
unfolding set_conditions
upsert s condition =
    check_first s (validate_condition condition)
      (set_conditions s (upsert_condition s.status.conditions condition))

unfoldable pub clear : Sandbox → Text → Sandbox × Check
unfolding set_conditions
clear s type = elim (without_condition s.status.conditions type) [
  | err e ↦ (s, err e)
  | ok conditions ↦ set_conditions s conditions
]
