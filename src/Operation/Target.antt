-- ===== src/Operation/Target.antt =====
-- internal/operation/model.go and resolve.go: targets, fingerprints, sequences, and the binding of an
-- operation identity.
use mydocker.Base.{
  ℕ, ◌+◌, ◌-◌, ◌^◌, Bool, false, not, ◌&&◌, ◌||◌, ◌==◌, String, Eq, discrete_eq, Result, ok, err,
  fail_if, ◌>>◌, is_empty, length, any, ltb, leb, nat_beq, if◌then◌else◌, ℕ_discrete,
}
use mydocker.Text.{Text, Rune, Text-discrete, text_eq, runes, is_control, is_space}
use mydocker.Text.Trim.{trim_space}
use mydocker.Operation.Errors.{Error, Check, malformed, binding_mismatch}
use mydocker.Operation.Vocabulary.{
  Verb, create, start, state, kill, stop, delete, is_type, type_eq, TargetKind, sandbox, container,
  attempt, is_kind, kind_eq, TargetKind-discrete,
}

abbrev pub OperationId : Type 0
OperationId = Text

unfoldable pub validate_identifier : String → Text → Check
validate_identifier field value = do
  fail_if (is_empty value || not (trim_space value == value)) (malformed field)
  fail_if (ltb 128 (length value)) (malformed field)
  fail_if (any (λ (r : Rune). is_control r.value || is_space r.value) (runes value))
      (malformed field)

abbrev pub validate_operation_id : OperationId → Check
validate_operation_id id = validate_identifier "operation ID" id

pub record Target : Type 0 where
  pub kind : TargetKind
  pub id : Text

unfoldable pub Target-discrete : Discrete Target
unfolding Text-discrete TargetKind-discrete
Target-discrete = hlevel (Text-discrete, TargetKind-discrete)

-- Target.Equal, and Go's own equality of targets as map keys.
instance abbrev pub target_eq : Eq Target
target_eq = discrete_eq Target-discrete

unfoldable pub validate_target : Target → Check
validate_target t = do
  fail_if (not (is_kind t.kind)) (malformed "operation target kind")
  validate_identifier "operation target ID" t.id

-- Which verbs apply to which kinds.
unfoldable pub applies : Verb → TargetKind → Bool
applies create k = k == sandbox || k == container
applies start k = k == container
applies state k = k == sandbox || k == container || k == attempt
applies kill k = k == container || k == attempt
applies stop k = k == sandbox || k == container
applies delete k = k == sandbox || k == container
applies _ k = false

unfoldable pub validate_type_target : Verb → TargetKind → Check
unfolding applies
validate_type_target verb kind = fail_if (not (applies verb kind)) (malformed "operation type")

pub record RequestFingerprint : Type 0 where
  pub version : ℕ
  pub sha256 : Text

unfoldable pub RequestFingerprint-discrete : Discrete RequestFingerprint
unfolding Text-discrete ℕ_discrete
RequestFingerprint-discrete = hlevel (Text-discrete, ℕ_discrete)

instance abbrev pub fingerprint_eq : Eq RequestFingerprint
fingerprint_eq = discrete_eq RequestFingerprint-discrete

abbrev pub current_fingerprint_version : ℕ
current_fingerprint_version = 1

-- A rune of the alphabet "0123456789abcdef".
abbrev pub is_lower_hex : ℕ → Bool
is_lower_hex c = leb b'0' c && leb c b'9' || leb b'a' c && leb c b'f'

unfoldable pub validate_fingerprint : RequestFingerprint → Check
validate_fingerprint f = do
  fail_if (not (nat_beq f.version current_fingerprint_version)) (malformed "fingerprint version")
  fail_if (not (nat_beq (length f.sha256) 64)) (malformed "fingerprint length")
  fail_if (any (λ (r : Rune). not (is_lower_hex r.value)) (runes f.sha256))
      (malformed "fingerprint digest")

-- A Sequence is a uint64.
abbrev pub max_sequence : ℕ
max_sequence = 2 ^ 64 - 1

unfoldable pub validate_sequence : ℕ → Check
validate_sequence s = fail_if (nat_beq s 0) (malformed "event sequence")

unfoldable pub next_sequence : ℕ → Result Error ℕ
next_sequence s =
    if nat_beq s max_sequence then err (malformed "event sequence overflow") else ok (s + 1)

pub record Binding : Type 0 where
  pub id : OperationId
  pub type : Verb
  pub target : Target
  pub fingerprint : RequestFingerprint

unfoldable pub validate_binding : Binding → Check
validate_binding b = do
  validate_operation_id b.id
  fail_if (not (is_type b.type)) (malformed "operation type")
  validate_target b.target
  validate_type_target b.type b.target.kind
  validate_fingerprint b.fingerprint

-- The first field in which a retry differs from the stored binding.
unfoldable pub compare_binding : Binding → Binding → Check
compare_binding existing requested = do
  fail_if (not (existing.id == requested.id)) (binding_mismatch requested.id "operation_id")
  fail_if (not (existing.type == requested.type)) (binding_mismatch requested.id "operation_type")
  fail_if (not (existing.target == requested.target)) (binding_mismatch requested.id "target")
  fail_if (not (existing.fingerprint == requested.fingerprint))
      (binding_mismatch requested.id "request_fingerprint")
