-- ===== src/Domain/ContainerAttempt/New.antt =====
-- When an execution can be created.
use mydocker.Domain.SandboxSpec.{validate_spec}
use mydocker.Base.{◌≡◌, ◌↔◌, false, ok, arith}
use mydocker.Text.{Text, contains_nul}
use mydocker.Domain.Identity.{ContainerId, AttemptId, validate_container_id, validate_attempt_id}
use mydocker.Domain.SandboxPhase.{ready}
use mydocker.Domain.Resources.{validate_resources}
use mydocker.Domain.Resources.Laws.{resolved_of, resolve_resource_limits-total}
use mydocker.Domain.Process.{ProcessSpec, validate_process}
use mydocker.Domain.Conditions.{validate_conditions, validate_observation}
use mydocker.Domain.Outcome.{pending_outcome}
use mydocker.Domain.Outcome.Laws.{pending_outcome-ok}
use mydocker.Domain.Container.{
  ContainerSpec, ContainerAttempt, validate_container_spec, validate_streams,
}
use mydocker.Domain.Sandbox.{Sandbox}
use mydocker.Domain.Sandbox
use mydocker.Domain.AttemptPhase.{is_valid, AttemptPhase-discrete}
use mydocker.Domain.Outcome.{OutcomePresence-discrete}
use mydocker.Domain.ContainerAttempt.{new_container_attempt, initial_pair, validate}
use mydocker.Domain.ContainerAttempt.Valid.{Valid, projected_status_equal-projected}

abbrev pub spec_of : Sandbox → ProcessSpec → Text → Text → ContainerSpec
spec_of sandbox process image_digest rootfs = record {
  process = process;
  image_digest = image_digest;
  rootfs = rootfs;
  limits = resolved_of sandbox.spec.resources;
}

-- The Sandbox is valid and ready, and the identities and the process can be stored.
pub record MayCreate (sandbox : Sandbox) (container_id : ContainerId) (attempt_id : AttemptId)
    (process : ProcessSpec) (image_digest rootfs : Text) : Type 0 where
  pub sandbox_valid : Sandbox.validate sandbox ≡ ok tt
  pub sandbox_ready : sandbox.status.phase ≡ ready
  pub container_named : validate_container_id container_id ≡ ok tt
  pub attempt_named : validate_attempt_id attempt_id ≡ ok tt
  pub process_valid : validate_process process ≡ ok tt
  pub image_storable : contains_nul image_digest ≡ false
  pub rootfs_storable : contains_nul rootfs ≡ false

module _ (sandbox : Sandbox) (container_id : ContainerId) (attempt_id : AttemptId)
    (process : ProcessSpec) (image_digest rootfs : Text) where
  abbrev LimitsOk : Type 0
  LimitsOk = validate_resources sandbox.spec.resources ≡ ok tt

  abbrev pub pair : ContainerAttempt
  pair = initial_pair sandbox container_id attempt_id (spec_of sandbox process image_digest rootfs)

  sandbox_resources : Sandbox.validate sandbox ≡ ok tt → LimitsOk
  unfolding Sandbox.validate validate_spec
  sandbox_resources h = ground arith

  pair-Valid : MayCreate sandbox container_id attempt_id process image_digest rootfs → Valid pair
  unfolding validate Sandbox.validate validate_container_spec validate_streams validate_observation
      validate_conditions is_valid AttemptPhase-discrete OutcomePresence-discrete pending_outcome
  pair-Valid m = ground (
    arith,
    pending_outcome-ok,
    projected_status_equal-projected pair.attempt 1 0,
    resolve_resource_limits-total sandbox.spec.resources (sandbox_resources m.sandbox_valid),
  )

  may_of_ok :
      {p : ContainerAttempt}
      → new_container_attempt sandbox container_id attempt_id process image_digest rootfs ≡ ok p
      → MayCreate sandbox container_id attempt_id process image_digest rootfs × (p ≡ pair)
  unfolding new_container_attempt validate validate_container_spec
  may_of_ok h =
      let checked : Sandbox.validate sandbox ≡ ok tt = ground arith in
      (
        record {
          sandbox_valid = checked;
          sandbox_ready = ground arith;
          container_named = ground arith;
          attempt_named = ground arith;
          process_valid = ground arith;
          image_storable = ground arith;
          rootfs_storable = ground arith;
        },
        ground (
          arith,
          resolve_resource_limits-total sandbox.spec.resources (sandbox_resources checked),
        ),
      )

  ok_of_may :
      MayCreate sandbox container_id attempt_id process image_digest rootfs
      → new_container_attempt sandbox container_id attempt_id process image_digest rootfs ≡ ok pair
  unfolding new_container_attempt Sandbox.validate
  ok_of_may m = ground (
    arith,
    pair-Valid m,
    resolve_resource_limits-total sandbox.spec.resources (sandbox_resources m.sandbox_valid),
  )

  -- NewContainerAttempt succeeds exactly in a valid, ready Sandbox and for identities and a process
  -- that can be stored; nothing else stands in the way. It returns the creating pair with the limits
  -- that the Sandbox's policy resolves to.
  pub new_container_attempt-eq-ok :
      {p : ContainerAttempt}
      → (new_container_attempt sandbox container_id attempt_id process image_digest rootfs ≡ ok p)
        ↔ (MayCreate sandbox container_id attempt_id process image_digest rootfs × (p ≡ pair))
  new_container_attempt-eq-ok = (may_of_ok, λ h. rw (h.1) (ok_of_may h.0))
