-- ===== src/Domain/Container.antt =====
-- internal/domain/model.go, the records of a Container and of its Attempt. A clone is the value itself.
use mydocker.Base.{ℕ, Bool, not, ◌||◌, List, Option, Eq, discrete_eq, fail_if, ◌>>◌}
use mydocker.Text.{Text, Text-discrete, contains_nul}
use mydocker.Text.Trim.{is_blank}
use mydocker.Domain.Errors.{ErrorCode, Field, Check, invalid, new_error}
use mydocker.Domain.Identity.{SandboxId, ContainerId, AttemptId}
use mydocker.Domain.AttemptPhase.{AttemptPhase}
use mydocker.Domain.Resources.{ResolvedResourceLimits, validate_resolved}
use mydocker.Domain.Process.{ProcessSpec, validate_process}
use mydocker.Domain.Conditions.{Condition, LifecycleObservation}
use mydocker.Domain.Outcome.{Outcome}

pub record ProcessIdentity : Type 0 where
  pub verified : Bool
  pub handle : Text
  pub evidence : Text

unfoldable pub ProcessIdentity-discrete : Discrete ProcessIdentity
unfolding Text-discrete
ProcessIdentity-discrete = hlevel Text-discrete

instance abbrev pub identity_eq : Eq ProcessIdentity
identity_eq = discrete_eq ProcessIdentity-discrete

unfoldable pub validate_identity : ProcessIdentity → Check
validate_identity i =
    fail_if
      (not i.verified
        || is_blank i.handle
        || is_blank i.evidence
        || contains_nul i.handle
        || contains_nul i.evidence)
      (new_error ErrorCode.unsafe_identity (Field.named "process_identity"))

pub record StreamReferences : Type 0 where
  pub stdin : Text
  pub stdout : Text
  pub stderr : Text

unfoldable pub StreamReferences-discrete : Discrete StreamReferences
unfolding Text-discrete
StreamReferences-discrete = hlevel Text-discrete

instance abbrev pub streams_eq : Eq StreamReferences
streams_eq = discrete_eq StreamReferences-discrete

unfoldable pub validate_streams : StreamReferences → Check
validate_streams s =
    fail_if (contains_nul s.stdin || contains_nul s.stdout || contains_nul s.stderr)
      (invalid "streams")

pub record ContainerSpec : Type 0 where
  pub process : ProcessSpec
  pub image_digest : Text
  pub rootfs : Text
  pub limits : ResolvedResourceLimits

unfoldable pub validate_container_spec : ContainerSpec → Check
validate_container_spec s = do
  validate_process s.process
  fail_if (contains_nul s.image_digest || contains_nul s.rootfs) (invalid "container.spec")
  validate_resolved s.limits

pub record ContainerStatus : Type 0 where
  pub phase : AttemptPhase
  pub generation : ℕ
  pub observed_generation : ℕ
  pub conditions : List Condition
  pub process_identity : Option ProcessIdentity
  pub streams : StreamReferences
  pub outcome : Outcome
  pub last_observation : LifecycleObservation

pub record Container : Type 0 where
  pub version : ℕ
  pub id : ContainerId
  pub sandbox_id : SandboxId
  pub attempt_id : AttemptId
  pub spec : ContainerSpec
  pub status : ContainerStatus

pub record Attempt : Type 0 where
  pub version : ℕ
  pub id : AttemptId
  pub sandbox_id : SandboxId
  pub container_id : ContainerId
  pub phase : AttemptPhase
  pub conditions : List Condition
  pub process_identity : Option ProcessIdentity
  pub streams : StreamReferences
  pub outcome : Outcome
  pub last_observation : LifecycleObservation

pub record ContainerAttempt : Type 0 where
  pub container : Container
  pub attempt : Attempt
