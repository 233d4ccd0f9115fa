-- ===== src/Domain/Identity.antt =====
-- internal/domain/identity.go
pub mod Laws
use mydocker.Base.{ℕ, Bool, ◌||◌, String, not, fail_if, is_empty, ltb, length, any, ◌==◌, ◌>>◌}
use mydocker.Text.{Text, Rune, runes, text_eq, is_control, is_space}
use mydocker.Text.Trim.{trim_space}
use mydocker.Domain.Errors.{Check, invalid}

abbrev pub SandboxId : Type 0
SandboxId = Text

abbrev pub ContainerId : Type 0
ContainerId = Text

abbrev pub AttemptId : Type 0
AttemptId = Text

abbrev pub is_unsupported : Rune → Bool
is_unsupported r = is_control r.value || is_space r.value

unfoldable pub validate_id : String → Text → Check
validate_id field value = do
  fail_if (is_empty value || not (trim_space value == value)) (invalid field)
  fail_if (ltb 128 (length value)) (invalid field)
  fail_if (any is_unsupported (runes value)) (invalid field)

abbrev pub validate_sandbox_id : SandboxId → Check
validate_sandbox_id id = validate_id "sandbox_id" id

abbrev pub validate_container_id : ContainerId → Check
validate_container_id id = validate_id "container_id" id

abbrev pub validate_attempt_id : AttemptId → Check
validate_attempt_id id = validate_id "attempt_id" id
