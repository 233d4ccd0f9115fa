-- ===== src/State/Progress.antt =====
-- internal/state/memory.go: the writes of operations and of their events.
pub mod Parts
pub mod Swap
pub mod Terminal
use mydocker.Base.{
  ℕ, ◌+◌, Bool, true, false, not, ◌&&◌, ◌||◌, ◌==◌, List, [], ◌∷◌, ◌++◌, map, Option, none, some,
  Result, ok, err, Eq, fail_if, ◌>>◌, ◌>>=◌, is_empty, is_some, is_ok, any, length, nat_beq, Dict,
  lookup, insert, remove, if◌then◌else◌,
}
use mydocker.Base.Int.{ℤ, pos, ltb_ℤ, int_eq}
use mydocker.Text.{Text, text_eq}
use mydocker.Operation.Vocabulary
use mydocker.Operation.Vocabulary.{
  is_pending_or_running, is_terminal, stage_eq, result_eq, reason_eq, type_eq,
}
use mydocker.Operation.Target.{Target, target_eq, next_sequence}
use mydocker.Operation.Record.{binding}
use mydocker.Operation.Resolve.{resolve}
use mydocker.Operation.Event.{Event, validate_after}
use mydocker.State.Errors.{
  Error, Check, invalid_record, not_found, operation_expired, retention_capacity, active_operation,
  sequence_overflow, event_order,
}
use mydocker.State.Advance.{
  next_revision, validate_operation_advance, terminal_operation_update_allowed,
}
use mydocker.State.RollbackAdvance.{validate_rollback_advance, validate_rollback_cause_advance}
use mydocker.State.Records.{Codec, ContainerAttemptRecord, OperationRecord, linux_m2, profile_eq}
use mydocker.State.Receipts.{unless_ok}
use mydocker.State.Links.{validate_receipt_advance, validate_release_advance}
use mydocker.State.Validation.{
  validate_operation_record, validate_state_event, validate_oom_baseline_advance,
  validate_kill_escalation_deadline_advance, validate_host_profile_operation_advance,
}
use mydocker.State.Same.{same_progress}
use mydocker.State.Retention.{default_policy}
use mydocker.State.Transaction.{commit, revision_or_zero}
use mydocker.State.Store.{
  MemoryData, View, RetentionPolicy, ensure_writable, found, retired_operation_for, holds_target,
}

-- The zero value of a policy stands for the default.
abbrev pub identity_limit_of : RetentionPolicy → ℤ
identity_limit_of p =
    if p.terminal_limit == pos 0 && p.identity_limit == pos 0 && p.event_limit == pos 0
    then default_policy.identity_limit
    else p.identity_limit

abbrev pub is_side_effect_free : OperationRecord → Bool
is_side_effect_free o =
    o.operation.stage == Vocabulary.persist_intent
    && not (is_some o.deadline)
    && is_empty o.rollback
    && is_empty o.receipts
    && is_empty o.releases

-- The first other operation that is active on the target.
unfoldable pub other_active : OperationRecord → Dict Text OperationRecord → Check
unfolding is_pending_or_running
other_active o [] = ok tt
other_active o ((id, r) ∷ m) =
    if not (id == o.operation.id) && holds_target o.operation.target r
    then err (active_operation id o.operation.id)
    else other_active o m

module _ (codec : Codec) where
  -- What an operation without a record needs.
  unfoldable pub check_new_operation : View → OperationRecord → Check
  unfolding retired_operation_for is_pending_or_running
  check_new_operation v o = do
    fail_if (is_some (retired_operation_for codec.id_digest v.data_of o.operation.id))
        operation_expired
    fail_if
        (not (
          ltb_ℤ (pos (length v.data_of.operations + length v.data_of.retired))
            (identity_limit_of v.retention)))
        (retention_capacity "operation identities")
    fail_if
        (o.profile == linux_m2
          && is_pending_or_running o.operation.state
          && not (is_side_effect_free o))
        (invalid_record "new Linux operation")

  -- What an operation with a record keeps.
  unfoldable pub check_operation_change : OperationRecord → OperationRecord → Check
  unfolding validate_rollback_advance validate_rollback_cause_advance validate_oom_baseline_advance
      validate_kill_escalation_deadline_advance validate_receipt_advance validate_release_advance
      validate_operation_advance validate_host_profile_operation_advance
      terminal_operation_update_allowed same_progress is_terminal binding
  check_operation_change current o = do
    fail_if (not (current.profile == o.profile)) (invalid_record "host profile")
    unless_ok (resolve codec.decodes (some current.operation) (binding o.operation))
        (invalid_record "operation binding")
    validate_rollback_advance current.rollback o.rollback
    validate_rollback_cause_advance current.cause o.cause
    validate_oom_baseline_advance current.oom_baseline o.oom_baseline
    validate_kill_escalation_deadline_advance current.deadline o.deadline
    validate_receipt_advance current.receipts o.receipts current.rollback o.rollback
    validate_release_advance current.releases o.releases
    validate_operation_advance current.operation o.operation
    validate_host_profile_operation_advance current o
    fail_if
        (is_terminal current.operation.state
          && (not (terminal_operation_update_allowed current.operation o.operation)
              || not (same_progress current o)))
        (invalid_record "terminal result")

  unfoldable pub check_if_new : View → OperationRecord → Option OperationRecord → Check
  unfolding check_new_operation
  check_if_new v o none = check_new_operation v o
  check_if_new v o (some _) = ok tt

  unfoldable pub check_if_known : OperationRecord → Option OperationRecord → Check
  unfolding check_operation_change
  check_if_known o none = ok tt
  check_if_known o (some current) = check_operation_change current o

  unfoldable pub check_operation : View → OperationRecord → ℕ → Result Error ℕ
  unfolding ensure_writable validate_operation_record check_if_new next_revision check_if_known
      is_pending_or_running other_active
  check_operation v o expected = do
    ensure_writable v
    validate_operation_record codec o
    let current = lookup o.operation.id v.data_of.operations
    check_if_new v o current
    next ←
        next_revision expected (revision_or_zero (λ (x : OperationRecord). x.revision) current)
          (is_some current)
    check_if_known o current
    if is_pending_or_running o.operation.state then other_active o v.data_of.operations else ok tt
    ok next

  unfoldable pub put_operation : View → OperationRecord → ℕ → View × Result Error OperationRecord
  unfolding check_operation
  put_operation v o expected = commit v (check_operation v o expected) (λ next.
      let stored : OperationRecord = record o { revision = next } in
      (
        record (v.data_of) { operations = insert o.operation.id stored v.data_of.operations },
        stored,
      ))

  -- The generations of the resource that an event is about, where it exists.
  abbrev pub pair_generation : ContainerAttemptRecord → ℕ × ℕ
  pair_generation r =
      (r.pair.container.status.generation, r.pair.container.status.observed_generation)

  abbrev pub attempt_generation : Text → Dict Text ContainerAttemptRecord → Option (ℕ × ℕ)
  attempt_generation id [] = none
  attempt_generation id ((_, r) ∷ m) =
      if r.pair.attempt.id == id then some (pair_generation r) else attempt_generation id m

  unfoldable pub event_target_generation : MemoryData → Target → Option (ℕ × ℕ)
  event_target_generation d t = elim t.kind [
    | Vocabulary.sandbox ↦ elim (lookup t.id d.sandboxes) [
      | none ↦ none
      | some r ↦ some (r.sandbox.status.generation, r.sandbox.status.observed_generation)
    ]
    | Vocabulary.container ↦ elim (lookup t.id d.pairs) [
      | none ↦ none
      | some r ↦ some (pair_generation r)
    ]
    | Vocabulary.attempt ↦ attempt_generation t.id d.pairs
    | _ ↦ none
  ]

  abbrev pub other_generation : Option (ℕ × ℕ) → Event → Bool
  other_generation none e = false
  other_generation (some (generation, observed)) e =
      not (nat_beq e.generation generation) || not (nat_beq e.observed_generation observed)

  -- The order behind the last event, where there is one.
  unfoldable pub check_after : Event → List Event → Check
  check_after e [] = ok tt
  check_after e (x ∷ []) = unless_ok (validate_after codec.decodes e x) event_order
  check_after e (x ∷ y ∷ es) = check_after e (y ∷ es)

  unfoldable pub check_event : View → Event → Result Error Event
  unfolding ensure_writable event_target_generation validate_state_event check_after next_sequence
  check_event v e = do
    ensure_writable v
    fail_if (not (nat_beq e.sequence 0)) (invalid_record "event sequence")
    r ← found (lookup e.operation_id v.data_of.operations) (not_found "event operation")
    fail_if (not (e.type == r.operation.type) || not (e.target == r.operation.target))
        (invalid_record "event binding")
    fail_if
        (not (e.stage == r.operation.stage)
          || not (e.result == r.operation.result)
          || not (e.reason == r.operation.reason))
        (invalid_record "event progress")
    fail_if (other_generation (event_target_generation v.data_of e.target) e)
        (invalid_record "event generation")
    unless_ok (next_sequence v.data_of.last_event) sequence_overflow
    let stored : Event = record e { sequence = v.data_of.last_event + 1 }
    validate_state_event codec stored
    check_after stored v.data_of.events
    ok stored

  unfoldable pub append_event : View → Event → View × Result Error Event
  unfolding check_event
  append_event v e = commit v (check_event v e) (λ stored. (
    record (v.data_of) { events = v.data_of.events ++ stored ∷ []; last_event = stored.sequence },
    stored,
  ))
