-- ===== src/State/Validation.antt =====
-- internal/state/memory.go: the checks of a whole record by itself, and of an operation record against the
-- one that it replaces.
use mydocker.Base.{
  ℕ, Bool, true, not, ◌&&◌, ◌||◌, ◌==◌, List, [], ◌∷◌, Option, none, some, ok, err, fail_if, ◌>>◌,
  is_empty, is_none, any, all, contains, nat_beq, if◌then◌else◌, option_eq,
}
use mydocker.Base.Int.{ℤ, ltb_ℤ, int_eq}
use mydocker.Text.{Text, text_eq}
use mydocker.Domain.Sandbox as Sandboxes
use mydocker.Domain.ContainerAttempt as Pairs
use mydocker.Operation.Vocabulary
use mydocker.Operation.Vocabulary.{
  type_eq, kind_eq, state_eq, stage_eq, result_eq, is_terminal, is_pending_or_running,
}
use mydocker.Operation.Target.{Target}
use mydocker.Operation.Record.{validate_operation, operation_schema_version}
use mydocker.Operation.Event.{Event, validate_event, event_schema_version}
use mydocker.Rollback.Diagnostic.{Cause, validate_cause}
use mydocker.Rollback.Record.{Record, validate_record}
use mydocker.Ownership.Vocabulary.{attempt_cgroup}
use mydocker.Ownership.Vocabulary as Resources
use mydocker.Ownership.Receipt.{Receipt, owner_eq}
use mydocker.Ownership.Profile.{validate_profile}
use mydocker.Provider.Oom.{OomSnapshot, validate_oom, snapshot_eq}
use mydocker.State.Errors.{Check, invalid_record, unsupported_schema}
use mydocker.State.Advance.{operation_stage_rank}
use mydocker.State.Records.{
  Codec, schema_version_v1, SandboxRecord, ContainerAttemptRecord, OperationRecord, linux_m2,
  profile_eq, is_profile,
}
use mydocker.State.Receipts.{
  unless_ok, validate_host_resource_inventory, validate_acquisition_receipts,
  validate_host_profile_record, validate_cleanup_releases,
}
use mydocker.State.Links.{validate_receipt_rollback_links}

unfoldable pub validate_schema : ℕ → Check
validate_schema version =
    fail_if (not (nat_beq version schema_version_v1)) (unsupported_schema "record")

abbrev pub sandbox_target : Text → Target
sandbox_target id = record { kind = Vocabulary.sandbox; id = id }

abbrev pub container_target : Text → Target
container_target id = record { kind = Vocabulary.container; id = id }

abbrev pub attempt_target : Text → Target
attempt_target id = record { kind = Vocabulary.attempt; id = id }

-- An OOM baseline is of the Attempt cgroup of one of the receipts.
abbrev pub is_scope_of : OomSnapshot → Receipt → Bool
is_scope_of s r =
    Resources.kind_eq.same r.kind attempt_cgroup
    && r.owner == s.owner
    && r.evidence_sha256 == s.cgroup_evidence_sha256

abbrev pub is_active_kill : OperationRecord → Bool
is_active_kill o =
    is_pending_or_running o.operation.state
    && o.operation.type == Vocabulary.kill
    && o.operation.stage == Vocabulary.signal_process

unfoldable pub validate_record_cause : OperationRecord → Option Cause → Check
validate_record_cause o none = ok tt
validate_record_cause o (some c) = do
  unless_ok (validate_cause c) (invalid_record "rollback cause")
  fail_if (not (o.operation.stage == Vocabulary.rollback) && not (is_terminal o.operation.state))
      (invalid_record "active rollback cause")

-- A deadline is a pointer to a time, which may be the zero time.
unfoldable pub validate_deadline : OperationRecord → Option (Option ℤ) → Check
unfolding is_pending_or_running operation_stage_rank
validate_deadline o none =
    fail_if (is_active_kill o) (invalid_record "signaled Kill without deadline")
validate_deadline o (some time) = do
  fail_if (is_none time) (invalid_record "Kill escalation deadline")
  fail_if
      (not (o.operation.type == Vocabulary.kill)
        || not (o.operation.target.kind == Vocabulary.container))
      (invalid_record "Kill escalation deadline")
  fail_if
      (is_pending_or_running o.operation.state
        && ltb_ℤ (operation_stage_rank o.operation.stage)
            (operation_stage_rank Vocabulary.signal_process))
      (invalid_record "active Kill escalation deadline")

-- The loop over the rollback records, with the names already seen.
unfoldable pub scan_rollback : OperationRecord → List Text → List Record → Check
unfolding is_terminal
scan_rollback o seen [] = ok tt
scan_rollback o seen (s ∷ steps) = do
  unless_ok (validate_record s) (invalid_record "rollback record")
  fail_if (contains s.descriptor.name seen) (invalid_record "rollback record name")
  fail_if
      (is_terminal o.operation.state
        && not s.succeeded
        && (s.started || o.operation.state == Vocabulary.failed))
      (invalid_record "pending rollback record")
  scan_rollback o (s.descriptor.name ∷ seen) steps

module _ (codec : Codec) where
  unfoldable pub validate_sandbox_record : SandboxRecord → Check
  unfolding validate_schema validate_host_resource_inventory
  validate_sandbox_record r = do
    validate_schema r.version
    fail_if (not (nat_beq r.sandbox.version Sandboxes.schema_version))
        (unsupported_schema "sandbox")
    unless_ok (Sandboxes.validate r.sandbox) (invalid_record "sandbox")
    validate_host_resource_inventory codec.token r.host_resources r.sandbox.status.generation
        (sandbox_target r.sandbox.id ∷ [])

  unfoldable pub validate_container_attempt_record : ContainerAttemptRecord → Check
  unfolding validate_schema validate_host_resource_inventory
  validate_container_attempt_record r = do
    validate_schema r.version
    fail_if
        (not (nat_beq r.pair.container.version Sandboxes.schema_version)
          || not (nat_beq r.pair.attempt.version Sandboxes.schema_version))
        (unsupported_schema "container attempt")
    unless_ok (Pairs.validate r.pair) (invalid_record "container attempt")
    validate_host_resource_inventory codec.token r.host_resources r.pair.container.status.generation
        (container_target r.pair.container.id ∷ attempt_target r.pair.attempt.id ∷ [])

  unfoldable pub validate_baseline : OperationRecord → Option OomSnapshot → Check
  validate_baseline o none = ok tt
  validate_baseline o (some s) = do
    unless_ok (validate_oom codec.token codec.oom_digest s) (invalid_record "OOM baseline")
    fail_if
        (not (o.operation.type == Vocabulary.create)
          || not (o.operation.target.kind == Vocabulary.container))
        (invalid_record "OOM baseline")
    fail_if (not (any (is_scope_of s) o.receipts)) (invalid_record "OOM baseline scope")

  -- The receipts of an operation that has succeeded.
  unfoldable pub validate_success : OperationRecord → Check
  validate_success o = do
    fail_if (o.operation.result == Vocabulary.result_noop && not (is_empty o.receipts))
        (invalid_record "noop operation")
    fail_if (not (all (λ (r : Receipt). r.adopted) o.receipts)) (invalid_record "unadopted receipt")
    if o.operation.type == Vocabulary.create
          && o.operation.result == Vocabulary.result_succeeded
          && o.profile == linux_m2
        then unless_ok (validate_profile codec.token o.operation.target.kind o.receipts)
            (invalid_record "incomplete receipt profile")
        else ok tt

  -- What the receipts of a terminal, or of an active, operation are.
  unfoldable pub validate_adoption : OperationRecord → Check
  unfolding is_pending_or_running validate_success
  validate_adoption o = do
    if o.operation.state == Vocabulary.succeeded then validate_success o else ok tt
    fail_if (o.operation.state == Vocabulary.failed && any (λ (r : Receipt). r.adopted) o.receipts)
        (invalid_record "adopted receipt of failed operation")
    fail_if (is_pending_or_running o.operation.state && any (λ (r : Receipt). r.adopted) o.receipts)
        (invalid_record "adopted receipt of active operation")

  unfoldable pub validate_operation_record : OperationRecord → Check
  unfolding validate_schema is_profile validate_record_cause validate_baseline validate_deadline
      validate_acquisition_receipts validate_host_profile_record validate_cleanup_releases
      scan_rollback validate_receipt_rollback_links validate_adoption
  validate_operation_record o = do
    validate_schema o.version
    fail_if (not (is_profile o.profile)) (invalid_record "host profile")
    fail_if (not (nat_beq o.operation.version operation_schema_version))
        (unsupported_schema "operation")
    unless_ok (validate_operation codec.decodes o.operation) (invalid_record "operation")
    validate_record_cause o o.cause
    validate_baseline o o.oom_baseline
    validate_deadline o o.deadline
    fail_if (o.operation.stage == Vocabulary.rollback && is_none o.cause)
        (invalid_record "rollback stage")
    validate_acquisition_receipts codec.token o
    validate_host_profile_record codec.token o
    validate_cleanup_releases codec.token o
    scan_rollback o [] o.rollback
    validate_receipt_rollback_links codec o
    validate_adoption o

  unfoldable pub validate_state_event : Event → Check
  validate_state_event e = do
    fail_if (not (nat_beq e.version event_schema_version)) (unsupported_schema "event")
    unless_ok (validate_event codec.decodes e) (invalid_record "event")

unfoldable pub validate_oom_baseline_advance : Option OomSnapshot → Option OomSnapshot → Check
validate_oom_baseline_advance none next = ok tt
validate_oom_baseline_advance (some current) none =
    fail_if true (invalid_record "OOM baseline removed")
validate_oom_baseline_advance (some current) (some next) =
    fail_if (not (current == next)) (invalid_record "OOM baseline changed")

unfoldable pub validate_kill_escalation_deadline_advance :
    Option (Option ℤ) → Option (Option ℤ) → Check
validate_kill_escalation_deadline_advance none next = ok tt
validate_kill_escalation_deadline_advance (some current) none =
    fail_if true (invalid_record "deadline removed")
validate_kill_escalation_deadline_advance (some current) (some next) =
    fail_if (not (current == next)) (invalid_record "deadline changed")

-- The acknowledgements of a Linux Start are made one by one.
unfoldable pub validate_host_profile_operation_advance : OperationRecord → OperationRecord → Check
unfolding operation_stage_rank
validate_host_profile_operation_advance current next =
    let rank = operation_stage_rank current.operation.stage in
    let next_rank = operation_stage_rank next.operation.stage in
    let attach = operation_stage_rank Vocabulary.attach_cgroup in
    let release = operation_stage_rank Vocabulary.release_start_gate in
    let observe = operation_stage_rank Vocabulary.observe_process in
    if not (current.profile == linux_m2)
      || not (current.operation.type == Vocabulary.start)
      || current.operation.stage == next.operation.stage
    then ok tt
    else if ltb_ℤ rank attach && ltb_ℤ attach next_rank
    then err (invalid_record "Start skipped cgroup attachment")
    else if rank == attach
        && ltb_ℤ attach next_rank
        && not (next.operation.stage == Vocabulary.release_start_gate)
    then err (invalid_record "Start skipped start-gate release")
    else if not (ltb_ℤ rank release)
        && ltb_ℤ rank observe
        && ltb_ℤ release next_rank
        && not (next.operation.stage == Vocabulary.observe_process)
    then err (invalid_record "Start skipped process observation")
    else ok tt
