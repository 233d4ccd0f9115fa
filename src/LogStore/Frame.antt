-- ===== src/LogStore/Frame.antt =====
-- internal/logstore/types.go. The digest of a payload is the parameter `sha256`.
use mydocker.Base.{
  ◌-◌, ℕ, ◌+◌, ◌/◌, ◌%◌, Bool, true, false, not, ◌||◌, ◌==◌, List, [], ◌∷◌, Result, ok, err,
  fail_if, ◌>>◌, is_empty, length, ltb, nat_beq, String, if◌then◌else◌,
}
use mydocker.Text.{Text, text_eq}
use mydocker.Domain.Errors.{Check as DomainCheck}
use mydocker.Domain.Identity.{ContainerId, AttemptId, validate_container_id, validate_attempt_id}

-- The sentinel errors, and those without one.
pub data Error : Type 0 where
  unsupported_schema identity_mismatch closed_store append_unavailable exhausted : Error
  cursor_gap : ℕ → ℕ → Error
  corrupt invalid_frame : String → Error

abbrev pub Check : Type 0
Check = Result Error (Unit {0})

-- A string in Go: the last constructor stands for the spellings outside the vocabulary.
pub data Stream : Type 0 where
  stdout stderr : Stream
  other_stream : Text → Stream

abbrev pub is_stream : Stream → Bool
is_stream (other_stream _) = false
is_stream _ = true

pub record Identity : Type 0 where
  pub container_id : ContainerId
  pub attempt_id : AttemptId

pub record Frame : Type 0 where
  pub version : ℕ
  pub identity : Identity
  pub stream : Stream
  pub cursor : ℕ
  pub sequence : ℕ
  pub payload : List ℕ
  pub payload_sha256 : Text

abbrev pub log_schema_version : ℕ
log_schema_version = 1

abbrev pub max_payload_bytes : ℕ
max_payload_bytes = 16777216

abbrev pub or_invalid : DomainCheck → String → Check
or_invalid (ok _) field = ok tt
or_invalid (err _) field = err (invalid_frame field)

abbrev pub validate_identity : Identity → Check
validate_identity identity = do
  or_invalid (validate_container_id identity.container_id) "log container identity"
  or_invalid (validate_attempt_id identity.attempt_id) "log attempt identity"

abbrev pub hex_digit : ℕ → ℕ
hex_digit d = if ltb d 10 then b'0' + d else b'a' + (d - 10)

-- hex.EncodeToString
unfoldable pub encode_hex : List ℕ → Text
encode_hex [] = []
encode_hex (b ∷ bs) = hex_digit (b / 16) ∷ hex_digit (b % 16) ∷ encode_hex bs

module _ (sha256 : List ℕ → List ℕ) where
  unfoldable pub validate_frame : Frame → Check
  unfolding encode_hex
  validate_frame frame = do
    fail_if (not (nat_beq frame.version log_schema_version)) unsupported_schema
    validate_identity frame.identity
    fail_if (not (is_stream frame.stream)) (invalid_frame "stream")
    fail_if (nat_beq frame.cursor 0 || nat_beq frame.sequence 0) (invalid_frame "cursor")
    fail_if (is_empty frame.payload) (invalid_frame "payload")
    fail_if (ltb max_payload_bytes (length frame.payload)) (invalid_frame "payload")
    fail_if (not (frame.payload_sha256 == encode_hex (sha256 frame.payload)))
        (invalid_frame "payload checksum")
