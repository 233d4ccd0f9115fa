-- ===== src/Ownership/Sample.antt =====
-- Concrete receipts, with a token and a JSON of constant length.
use mydocker.Base.{ℕ, ◌≡◌, refl, true, false, List, [], ◌∷◌, Option, some, contains}
use mydocker.Text.{runes, Text, bytes, is_control, Text-discrete}
use mydocker.Text.Trim.{trim_space}
use mydocker.Text.Json.{json_valid}
use mydocker.Operation.Vocabulary as Verbs
use mydocker.Operation.Target.{OperationId, Target}
use mydocker.Rollback.Record.{validate_descriptor}
use mydocker.Ownership.Vocabulary
use mydocker.Ownership.Vocabulary.{Provider, Kind}
use mydocker.Ownership.Receipt
use mydocker.Ownership.Receipt.{OwnerKey, Receipt, valid_digest}
use mydocker.Ownership.Inverse
use mydocker.Ownership.Profile

abbrev pub digest : Text
digest = bytes "0123456789abcdef0123456789abcdef0123456789abcdef0123456789abcdef"

abbrev pub token : OperationId → Target → ℕ → Text
token id target generation = digest

pub token-Digest :
    (id : OperationId) (target : Target) (generation : ℕ)
    → valid_digest (token id target generation) ≡ true
unfolding valid_digest runes
token-Digest id target generation = refl

abbrev pub owner : OwnerKey
owner = record {
  operation_id = bytes "op-1";
  target = record { kind = Verbs.container; id = bytes "demo" };
  generation = 1;
  token = digest;
}

abbrev pub of_kind : Provider → Kind → Receipt
of_kind provider kind = record {
  version = 1;
  provider = provider;
  kind = kind;
  local_id = bytes "demo-1";
  owner = owner;
  evidence_sha256 = digest;
  attributes = [];
  adopted = false;
}

abbrev pub gate : Receipt
gate = of_kind Vocabulary.linux Vocabulary.start_gate

abbrev pub profile : List Receipt
profile =
    of_kind Vocabulary.cgroup_v2 Vocabulary.attempt_cgroup
    ∷ gate
    ∷ of_kind Vocabulary.linux Vocabulary.streams
    ∷ of_kind Vocabulary.linux Vocabulary.init_process
    ∷ of_kind Vocabulary.linux Vocabulary.pid_namespace
    ∷ of_kind Vocabulary.linux Vocabulary.mount_namespace
    ∷ of_kind Vocabulary.linux Vocabulary.rootfs_mount
    ∷ []

abbrev pub encode : Receipt → Text
encode r = bytes "{}"

abbrev pub decode : Text → Option Receipt
decode payload = some gate

-- What a run of this component opens.
unfoldable pub ownership_opened : Unit {0}
unfolding Vocabulary.is_provider Vocabulary.is_kind Vocabulary.kind_text Vocabulary.is_action
    Vocabulary.action_text Vocabulary.action_of Vocabulary.valid_for Vocabulary.Provider-discrete
    Vocabulary.Kind-discrete Receipt.OwnerKey-discrete Receipt.validate_opaque Receipt.valid_digest
    Receipt.validate_attributes Receipt.new_owner_key Receipt.validate_owner
    Receipt.validate_receipt Inverse.inverse_descriptor Inverse.match_descriptor
    Inverse.receipt_from_descriptor Profile.expected_profile Profile.validate_expectations
    Profile.validate_profile Profile.validate_prefix validate_descriptor trim_space json_valid
    contains is_control Text-discrete
ownership_opened = tt
