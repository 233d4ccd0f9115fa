-- ===== src/Provider/Observation.antt =====
-- internal/provider/observation.go, presence, cleanup and signals, and OwnedReceiptRequest of contracts.go. An
-- error is a check's of this package, by what it reads, or one of internal/ownership.
use mydocker.Base.{
  ℕ, Bool, true, false, not, ◌||◌, ◌==◌, List, String, Result, ok, err, Eq, discrete_eq, fail_if,
  ◌>>◌, is_empty, contains,
}
use mydocker.Text.{Text, Text-discrete, text_eq, contains_nul}
use mydocker.Text.Trim.{is_blank}
use mydocker.Operation.Target.{OperationId, Target}
use mydocker.Ownership.Vocabulary.{Provider, provider_eq, Kind, kind_eq}
use mydocker.Ownership.Receipt as Receipts
use mydocker.Ownership.Receipt.{
  OwnerKey, owner_eq, Receipt, Release, valid_digest, validate_owner, validate_receipt, new_release,
}

pub data Error : Type 0 where
  malformed : String → Error
  within : Receipts.Error → Error

abbrev pub Check : Type 0
Check = Result Error (Unit {0})

-- A check of internal/ownership.
abbrev pub of_ownership {ℓ} : {A : Type ℓ} → Result Receipts.Error A → Result Error A
of_ownership (ok a) = ok a
of_ownership (err e) = err (within e)

-- A string in Go: the last constructor stands for the spellings outside the vocabulary.
pub data Presence : Type 0 where
  present absent unknown : Presence
  other_presence : Text → Presence

unfoldable pub is_presence : Presence → Bool
is_presence (other_presence _) = false
is_presence _ = true

unfoldable pub Presence-discrete : Discrete Presence
unfolding Text-discrete
Presence-discrete = hlevel Text-discrete

instance abbrev pub presence_eq : Eq Presence
presence_eq = discrete_eq Presence-discrete

pub record ResourceObservation : Type 0 where
  pub presence : Presence
  pub verified : Bool
  pub evidence_sha256 : Text
  pub reason : Text

-- The evidence that each presence needs.
unfoldable pub validate_evidence : ResourceObservation → Check
validate_evidence o = elim o.presence [
  | present ↦
      fail_if (not o.verified || not (valid_digest o.evidence_sha256) || not (is_empty o.reason))
        (malformed "present resource observation")
  | absent ↦
      fail_if (not o.verified || not (is_empty o.evidence_sha256) || not (is_empty o.reason))
        (malformed "absent resource observation")
  | unknown ↦
      fail_if (o.verified || not (is_empty o.evidence_sha256) || is_blank o.reason)
        (malformed "unknown resource observation")
  | other_presence _ ↦ ok tt
]

unfoldable pub validate_resource : ResourceObservation → Check
unfolding is_presence validate_evidence
validate_resource o = do
  fail_if (not (is_presence o.presence)) (malformed "resource presence")
  fail_if (contains_nul o.reason) (malformed "resource observation reason")
  validate_evidence o

pub data CleanupDisposition : Type 0 where
  removed already_absent : CleanupDisposition
  other_disposition : Text → CleanupDisposition

unfoldable pub is_disposition : CleanupDisposition → Bool
is_disposition (other_disposition _) = false
is_disposition _ = true

pub record CleanupObservation : Type 0 where
  pub disposition : CleanupDisposition
  pub after : ResourceObservation

unfoldable pub validate_cleanup : CleanupObservation → Check
unfolding is_disposition validate_resource
validate_cleanup o = do
  fail_if (not (is_disposition o.disposition)) (malformed "cleanup disposition")
  validate_resource o.after
  fail_if (not (o.after.presence == absent)) (malformed "successful cleanup")

pub record OwnedReceiptRequest : Type 0 where
  pub owner : OwnerKey
  pub receipt : Receipt

module _ (token : OperationId → Target → ℕ → Text) where
  -- OwnedReceiptRequest.ValidateFor.
  unfoldable pub validate_for : OwnedReceiptRequest → Provider → List Kind → Check
  validate_for r provider kinds = do
    of_ownership (validate_owner token r.owner)
    of_ownership (validate_receipt token r.receipt)
    fail_if (not (r.receipt.owner == r.owner)) (malformed "receipt owner")
    fail_if (not (r.receipt.provider == provider)) (malformed "receipt provider")
    fail_if (not (contains r.receipt.kind kinds)) (malformed "receipt kind")

  -- CleanupObservation.Release, with the digest of the observation.
  unfoldable pub release_of :
      (CleanupObservation → Text)
      → CleanupObservation
      → OperationId
      → Receipt
      → Result Error Release
  unfolding validate_cleanup
  release_of evidence o id resource = do
    validate_cleanup o
    of_ownership (new_release token id resource (ok (evidence o)))
