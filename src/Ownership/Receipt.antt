-- ===== src/Ownership/Receipt.antt =====
-- internal/ownership/model.go: owner keys, receipts and releases. The hexadecimal SHA-256 of the JSON of an
-- owner binding is the parameter `token`; the attributes are a list of entries with different keys, read in
-- its order. Attributes that are nil and attributes that are empty are one value here, so that Clone is the
-- identity.
use mydocker.Base.{
  ℕ, Bool, true, not, ◌&&◌, ◌||◌, ◌==◌, List, [], ◌∷◌, String, Result, ok, err, Eq, discrete_eq,
  fail_if, ◌>>◌, is_empty, length, any, ltb, nat_beq, bool_beq, ℕ_discrete,
}
use mydocker.Text.{Text, Rune, Text-discrete, text_eq, runes, is_control, is_space, contains_nul}
use mydocker.Operation.Errors as OperationErrors
use mydocker.Operation.Target.{
  OperationId, validate_operation_id, Target, Target-discrete, validate_target, is_lower_hex,
}
use mydocker.Ownership.Vocabulary.{
  Provider, cgroup_v2, provider_eq, is_provider, Kind, kind_eq, is_kind, is_cgroup_kind,
}

-- An error of this package by what it reads, or one of internal/operation.
pub data Error : Type 0 where
  malformed : String → Error
  within : OperationErrors.Error → Error

abbrev pub Check : Type 0
Check = Result Error (Unit {0})

-- `if err := ...; err != nil { return err }` around a check of internal/operation.
abbrev pub of_operation : OperationErrors.Check → Check
of_operation (ok _) = ok tt
of_operation (err e) = err (within e)

abbrev pub ownership_schema_version : ℕ
ownership_schema_version = 1

pub record OwnerKey : Type 0 where
  pub operation_id : OperationId
  pub target : Target
  pub generation : ℕ
  pub token : Text

unfoldable pub OwnerKey-discrete : Discrete OwnerKey
unfolding Text-discrete Target-discrete ℕ_discrete
OwnerKey-discrete = hlevel (Text-discrete, Target-discrete, ℕ_discrete)

instance abbrev pub owner_eq : Eq OwnerKey
owner_eq = discrete_eq OwnerKey-discrete

pub record Receipt : Type 0 where
  pub version : ℕ
  pub provider : Provider
  pub kind : Kind
  pub local_id : Text
  pub owner : OwnerKey
  pub evidence_sha256 : Text
  pub attributes : List (Text × Text)
  pub adopted : Bool

pub record Release : Type 0 where
  pub version : ℕ
  pub cleanup_operation_id : OperationId
  pub resource : Receipt
  pub evidence_sha256 : Text

-- Neither empty nor long, without a slash, a backslash, a space or a control character.
unfoldable pub validate_opaque : String → Text → ℕ → Check
validate_opaque field value maximum = do
  fail_if
      (is_empty value
        || ltb maximum (length value)
        || any (λ b. nat_beq b b'/' || nat_beq b 0x5c) value)
      (malformed field)
  fail_if (any (λ (r : Rune). is_control r.value || is_space r.value) (runes value))
      (malformed field)

unfoldable pub valid_digest : Text → Bool
valid_digest value =
    nat_beq (length value) 64 && not (any (λ (r : Rune). not (is_lower_hex r.value)) (runes value))

unfoldable pub validate_attributes : List (Text × Text) → Check
unfolding validate_opaque
validate_attributes [] = ok tt
validate_attributes ((key, value) ∷ attributes) = do
  validate_opaque "attribute key" key 128
  fail_if (contains_nul value || ltb 1024 (length value)) (malformed "receipt attribute")
  validate_attributes attributes

module _ (token : OperationId → Target → ℕ → Text) where
  unfoldable pub new_owner_key : OperationId → Target → ℕ → Result Error OwnerKey
  new_owner_key id target generation = do
    of_operation (validate_operation_id id)
    of_operation (validate_target target)
    fail_if (nat_beq generation 0) (malformed "owner generation")
    ok (record {
      operation_id = id;
      target = target;
      generation = generation;
      token = token id target generation;
    })

  unfoldable pub validate_owner : OwnerKey → Check
  unfolding new_owner_key
  validate_owner k = elim (new_owner_key k.operation_id k.target k.generation) [
    | err e ↦ err e
    | ok expected ↦ fail_if (not (k.token == expected.token)) (malformed "owner token")
  ]

  -- Receipt.Validate.
  unfoldable pub validate_receipt : Receipt → Check
  unfolding validate_opaque validate_owner valid_digest validate_attributes
  validate_receipt r = do
    fail_if (not (nat_beq r.version ownership_schema_version)) (malformed "schema version")
    fail_if (not (is_provider r.provider) || not (is_kind r.kind)) (malformed "provider and kind")
    fail_if (not (bool_beq (r.provider == cgroup_v2) (is_cgroup_kind r.kind)))
        (malformed "provider of the kind")
    validate_opaque "local ID" r.local_id 256
    validate_owner r.owner
    fail_if (not (valid_digest r.evidence_sha256)) (malformed "receipt evidence")
    validate_attributes r.attributes

  unfoldable pub adopt : Receipt → Result Error Receipt
  unfolding validate_receipt
  adopt r = do validate_receipt r; ok (record r { adopted = true })

  unfoldable pub validate_release : Release → Check
  unfolding validate_receipt valid_digest
  validate_release r = do
    fail_if (not (nat_beq r.version ownership_schema_version)) (malformed "schema version")
    of_operation (validate_operation_id r.cleanup_operation_id)
    validate_receipt r.resource
    fail_if (not r.resource.adopted) (malformed "released resource")
    fail_if (not (valid_digest r.evidence_sha256)) (malformed "release evidence")

  -- NewRelease, with the answer of EvidenceDigest.
  unfoldable pub new_release : OperationId → Receipt → Result Error Text → Result Error Release
  unfolding validate_release
  new_release id resource (err e) = err e
  new_release id resource (ok digest) = do
    let release : Release = record {
      version = ownership_schema_version;
      cleanup_operation_id = id;
      resource = resource;
      evidence_sha256 = digest;
    }
    validate_release release
    ok release
