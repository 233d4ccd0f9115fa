-- ===== src/State/Progress/Terminal.antt =====
-- The operation of a terminal record that has its response is never rewritten.
use mydocker.Base.{
  ◌==◌, fail_if, arith, ◌≡◌, sym, ap, ◌∙◌, Bool, true, false, not, ◌&&◌, ◌||◌, some, ok, inl, inr,
  >>-eq-ok, fail_if-eq-ok, is_empty,
}
use mydocker.Operation.Vocabulary.{is_terminal}
use mydocker.Operation.Record.{Operation, binding}
use mydocker.Operation.Resolve.{resolve}
use mydocker.State.Errors.{invalid_record}
use mydocker.State.Advance.{validate_operation_advance, terminal_operation_update_allowed}
use mydocker.State.Advance.Laws.{terminal-Accepted}
use mydocker.State.RollbackAdvance.{validate_rollback_advance, validate_rollback_cause_advance}
use mydocker.State.Links.{validate_receipt_advance, validate_release_advance}
use mydocker.State.Receipts.{unless_ok}
use mydocker.State.Records.{Codec, OperationRecord, profile_eq}
use mydocker.State.Same.{same_progress}
use mydocker.State.Validation.{
  validate_oom_baseline_advance, validate_kill_escalation_deadline_advance,
  validate_host_profile_operation_advance,
}
use mydocker.State.Progress.{check_operation_change}

-- A terminal operation with its response.
abbrev pub Answered : Operation → Type 0
Answered o = (is_terminal o.state ≡ true) × (is_empty o.response ≡ false)

both_false : (t a b : Bool) → t ≡ true → (t && (not a || not b)) ≡ false → a ≡ true
both_false t a b h guard = ground arith

module _ (codec : Codec) (current o : OperationRecord) where
  change_parts :
      check_operation_change codec current o ≡ ok tt
      → (validate_operation_advance current.operation o.operation ≡ ok tt)
        × ((is_terminal current.operation.state
              && (not (terminal_operation_update_allowed current.operation o.operation)
                  || not (same_progress current o)))
            ≡ false)
  unfolding check_operation_change
  change_parts h =
      let (_, a) =
        >>-eq-ok (fail_if (not (current.profile == o.profile)) (invalid_record "host profile")) _
          h in
      let (_, b) =
        >>-eq-ok
          (unless_ok (resolve codec.decodes (some current.operation) (binding o.operation))
            (invalid_record "operation binding"))
          _ a in
      let (_, c) = >>-eq-ok (validate_rollback_advance current.rollback o.rollback) _ b in
      let (_, d) = >>-eq-ok (validate_rollback_cause_advance current.cause o.cause) _ c in
      let (_, e) =
        >>-eq-ok (validate_oom_baseline_advance current.oom_baseline o.oom_baseline) _ d in
      let (_, f) =
        >>-eq-ok (validate_kill_escalation_deadline_advance current.deadline o.deadline) _ e in
      let (_, g) =
        >>-eq-ok (validate_receipt_advance current.receipts o.receipts current.rollback o.rollback)
          _ f in
      let (_, i) = >>-eq-ok (validate_release_advance current.releases o.releases) _ g in
      let (advance, j) = >>-eq-ok (validate_operation_advance current.operation o.operation) _ i in
      let (_, k) = >>-eq-ok (validate_host_profile_operation_advance current o) _ j in
      (advance, fail_if-eq-ok _ _ k)

  -- An accepted write leaves the operation of such a record as it was.
  pub change-Answered :
      check_operation_change codec current o ≡ ok tt
      → Answered current.operation
      → o.operation ≡ current.operation
  change-Answered h (terminal, answered) =
      let (advance, guard) = change_parts h in
      let allowed : terminal_operation_update_allowed current.operation o.operation ≡ true =
        both_false (is_terminal current.operation.state)
          (terminal_operation_update_allowed current.operation o.operation)
          (same_progress current o) terminal guard in
      let (shape, response) =
        terminal-Accepted current.operation o.operation terminal (advance, inr allowed) in
      elim response [
        | inl same ↦ shape ∙ ap (λ x. record (current.operation) { response = x }) (sym same)
        | inr empty ↦ cc (ap is_empty empty)
      ]
