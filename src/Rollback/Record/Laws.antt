-- ===== src/Rollback/Record/Laws.antt =====
-- When a failure can be recorded.
use mydocker.Base.{◌≡◌, ◌≢◌, ◌↔◌, false, some, ok, arith}
use mydocker.Text.{Text}
use mydocker.Text.Trim.{is_blank}
use mydocker.Rollback.Diagnostic.{bounded_diagnostic}
use mydocker.Rollback.Diagnostic.Laws.{bounded_diagnostic_lem}
use mydocker.Rollback.Record.{
  max_attempts, Record, validate_descriptor, validate_record, failed_once, record_failure,
}

-- RecordFailure succeeds exactly on a record with a valid descriptor and a counter below its maximum,
-- and for a message whose bounded form is not blank. It starts the record, counts the attempt and
-- stores the bounded message.
pub record_failure-eq-ok :
    (r : Record) (message : Text) {q : Record}
    → (record_failure r (some message) ≡ ok q) ↔ (
        (validate_descriptor r.descriptor ≡ ok tt)
        × (r.attempts ≢ max_attempts)
        × (is_blank (bounded_diagnostic message) ≡ false)
        × (q ≡ failed_once r message))
unfolding record_failure validate_record
record_failure-eq-ok r message =
    let (_, short, _) = bounded_diagnostic_lem message in (λ h. ground arith, λ h. ground arith)
