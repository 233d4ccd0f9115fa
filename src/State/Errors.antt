-- ===== src/State/Errors.antt =====
-- internal/state/errors.go: the sentinel errors, each with what the check read, and the typed errors with the
-- fields that classify them.
use mydocker.Base.{ℕ, String, Result}
use mydocker.Text.{Text}

pub data Error : Type 0 where
  invalid_record : String → Error
  revision_conflict : String → Error
  not_found : String → Error
  unsupported_schema : String → Error
  invariant_violation : String → Error
  operation_expired : Error
  retention_capacity : String → Error
  active_operation : Text → Text → Error
  invalid_event_limit : Error
  event_resume_gap : ℕ → ℕ → ℕ → Error
  sequence_overflow : Error
  event_order : Error
  nil_callback : Error
  read_only : Error
  transaction_closed : Error
  cancelled : Error
  callback_failed : Text → Error

abbrev pub Check : Type 0
Check = Result Error (Unit {0})
