-- ===== src/Ownership/Profile.antt =====
-- internal/ownership/model.go: the order in which the resources of a target are acquired.
pub mod Laws
use mydocker.Base.{
  false, ℕ, Bool, not, ◌||◌, ◌==◌, List, [], ◌∷◌, Option, none, some, Result, ok, err, fail_if,
  ◌>>◌, ◌>>=◌, length, take, ltb, nat_beq, if◌then◌else◌,
}
use mydocker.Text.{Text}
use mydocker.Operation.Vocabulary
use mydocker.Operation.Vocabulary.{TargetKind}
use mydocker.Operation.Target.{OperationId, Target}
use mydocker.Ownership.Vocabulary.{
  Provider, provider_eq, linux, cgroup_v2, Kind, kind_eq, sandbox_cgroup, attempt_cgroup,
  keeper_cgroup, keeper_process, uts_namespace, ipc_namespace, network_namespace, init_process,
  pid_namespace, mount_namespace, rootfs_mount, start_gate, streams,
}
use mydocker.Ownership.Receipt.{
  Error, malformed, Check, OwnerKey, owner_eq, Receipt, validate_receipt,
}

pub record ProfileExpectation : Type 0 where
  pub provider : Provider
  pub kind : Kind

abbrev pub expects : Provider → Kind → ProfileExpectation
expects provider kind = record { provider = provider; kind = kind }

abbrev pub sandbox_profile : List ProfileExpectation
sandbox_profile =
    expects cgroup_v2 sandbox_cgroup
    ∷ expects cgroup_v2 keeper_cgroup
    ∷ expects linux keeper_process
    ∷ expects linux uts_namespace
    ∷ expects linux ipc_namespace
    ∷ expects linux network_namespace
    ∷ []

abbrev pub attempt_profile : List ProfileExpectation
attempt_profile =
    expects cgroup_v2 attempt_cgroup
    ∷ expects linux start_gate
    ∷ expects linux streams
    ∷ expects linux init_process
    ∷ expects linux pid_namespace
    ∷ expects linux mount_namespace
    ∷ expects linux rootfs_mount
    ∷ []

unfoldable pub expected_profile : TargetKind → Result Error (List ProfileExpectation)
expected_profile Vocabulary.sandbox = ok sandbox_profile
expected_profile Vocabulary.container = ok attempt_profile
expected_profile Vocabulary.attempt = ok attempt_profile
expected_profile (Vocabulary.other_kind _) = err (malformed "target kind")

-- The owner that the loop has read: none before its first receipt.
abbrev pub other_owner : Option OwnerKey → OwnerKey → Bool
other_owner none o = false
other_owner (some owner) o = not (o == owner)

abbrev pub owner_or : Option OwnerKey → OwnerKey → OwnerKey
owner_or none o = o
owner_or (some owner) o = owner

module _ (token : OperationId → Target → ℕ → Text) where
  -- The loop; no caller passes fewer receipts than expectations.
  unfoldable pub validate_expectations :
      Option OwnerKey → List Receipt → List ProfileExpectation → Check
  validate_expectations owner receipts [] = ok tt
  validate_expectations owner [] (x ∷ expected) = err (malformed "receipt profile")
  validate_expectations owner (r ∷ receipts) (x ∷ expected) = do
    validate_receipt token r
    fail_if (not (r.provider == x.provider) || not (r.kind == x.kind)) (malformed "receipt profile")
    fail_if (other_owner owner r.owner) (malformed "receipt profile owner")
    validate_expectations (some (owner_or owner r.owner)) receipts expected

  unfoldable pub validate_profile : TargetKind → List Receipt → Check
  unfolding expected_profile validate_expectations
  validate_profile kind receipts = do
    expected ← expected_profile kind
    fail_if (not (nat_beq (length receipts) (length expected))) (malformed "receipt profile")
    validate_expectations none receipts expected

  unfoldable pub validate_prefix : TargetKind → List Receipt → Check
  unfolding expected_profile validate_expectations
  validate_prefix kind receipts = do
    expected ← expected_profile kind
    fail_if (ltb (length expected) (length receipts)) (malformed "receipt prefix")
    validate_expectations none receipts (take (length receipts) expected)
