-- ===== src/Rollback/Record.antt =====
-- internal/rollback/rollback.go: the descriptor of an inverse and the persistent progress of a step. A uint32
-- counter is a number with its bound written out.
pub mod Laws
use mydocker.Base.{
  ℕ, ◌+◌, ◌-◌, ◌^◌, Bool, true, false, not, ◌&&◌, ◌||◌, Option, none, some, Result, ok, err,
  fail_if, ◌>>◌, is_empty, length, ltb, nat_beq, if◌then◌else◌,
}
use mydocker.Text.{Text}
use mydocker.Text.Trim.{is_blank}
use mydocker.Text.Json.{json_valid}
use mydocker.Rollback.Diagnostic.{Error, malformed, Check, max_diagnostic_bytes, bounded_diagnostic}

abbrev pub rollback_schema_version : ℕ
rollback_schema_version = 1

abbrev pub max_attempts : ℕ
max_attempts = 2 ^ 32 - 1

pub record Descriptor : Type 0 where
  pub version : ℕ
  pub name : Text
  pub action : Text
  pub target : Text
  pub metadata : Text

unfoldable pub validate_descriptor : Descriptor → Check
validate_descriptor d = do
  fail_if (not (nat_beq d.version rollback_schema_version))
      (malformed "rollback descriptor schema version")
  fail_if (is_blank d.name) (malformed "rollback step name")
  fail_if (is_blank d.action) (malformed "rollback action")
  fail_if (is_blank d.target) (malformed "rollback target")
  fail_if (not (is_empty d.metadata) && not (json_valid d.metadata)) (malformed "rollback metadata")

pub record Record : Type 0 where
  pub descriptor : Descriptor
  pub succeeded : Bool
  pub started : Bool
  pub attempts : ℕ
  pub last_error : Text

unfoldable pub validate_record : Record → Check
validate_record r = do
  validate_descriptor r.descriptor
  fail_if (r.succeeded && not r.started) (malformed "successful rollback step")
  fail_if (nat_beq r.attempts 0 && not (is_empty r.last_error)) (malformed "rollback last error")
  fail_if (ltb 0 r.attempts && is_blank r.last_error) (malformed "failed rollback attempt")
  fail_if (ltb max_diagnostic_bytes (length r.last_error)) (malformed "rollback last error")

-- The record of one more failure, by the message of the error.
abbrev pub failed_once : Record → Text → Record
failed_once r message = record r {
  started = true;
  attempts = r.attempts + 1;
  last_error = bounded_diagnostic message;
}

-- RecordFailure; a nil error is `none`.
unfoldable pub record_failure : Record → Option Text → Result Error Record
unfolding validate_record
record_failure r none = err (malformed "rollback failure")
record_failure r (some message) = do
  fail_if (nat_beq r.attempts max_attempts) (malformed "rollback failure attempt counter overflow")
  validate_record (failed_once r message)
  ok (failed_once r message)
