-- ===== src/Rollback/Diagnostic.antt =====
-- internal/rollback/rollback.go, boundedDiagnostic and the cause of a rollback.
pub mod Laws
use mydocker.Base.{
  [], ℕ, zero, suc, Bool, true, false, not, ◌||◌, ◌==◌, String, Result, ok, err, fail_if, ◌>>◌,
  length, take, ltb, leb, if◌then◌else◌,
}
use mydocker.Text.{Text, valid_utf8}
use mydocker.Text.Trim.{is_blank}
use mydocker.Text.Repair.{to_valid_utf8}
use mydocker.Operation.Vocabulary.{ReasonClass, reason_none, is_reason, reason_eq}

-- An error of this package by what it reads, or one that a handler reports, by its message.
pub data Error : Type 0 where
  malformed : String → Error
  reported : Text → Error

abbrev pub Check : Type 0
Check = Result Error (Unit {0})

abbrev pub max_diagnostic_bytes : ℕ
max_diagnostic_bytes = 4096

-- The loop that drops the last byte until the rest is valid; the empty message is.
unfoldable pub cut_back : ℕ → Text → Text
cut_back zero message = []
cut_back (suc n) message =
    let shorter = cut_back n message in
    if valid_utf8 (take (suc n) message) then take (suc n) message else shorter

unfoldable pub bounded_by : ℕ → Text → Text
unfolding cut_back
bounded_by limit message =
    let repaired = to_valid_utf8 message in
    if leb (length repaired) limit then repaired else cut_back limit repaired

unfoldable pub bounded_diagnostic : Text → Text
unfolding bounded_by
bounded_diagnostic message = bounded_by max_diagnostic_bytes message

pub record Cause : Type 0 where
  pub reason : ReasonClass
  pub message : Text

unfoldable pub validate_cause : Cause → Check
validate_cause c = do
  fail_if (not (is_reason c.reason) || c.reason == reason_none) (malformed "rollback cause reason")
  fail_if (is_blank c.message) (malformed "rollback cause message")
  fail_if (ltb max_diagnostic_bytes (length c.message)) (malformed "rollback cause message")

unfoldable pub new_cause : ReasonClass → Text → Result Error Cause
unfolding validate_cause
new_cause reason message = do
  let cause : Cause = record { reason = reason; message = bounded_diagnostic message }
  validate_cause cause
  ok cause
