-- ===== src/State/Receipts.antt =====
-- internal/state/memory.go: the checks of the receipts and releases of a record by themselves.
use mydocker.Base.{
  suc, ℕ, zero, suc, Bool, false, not, ◌||◌, ◌==◌, List, [], ◌∷◌, Option, none, some, Result, ok,
  err, Eq, discrete_eq, fail_if, ◌>>◌, is_empty, is_ok, length, contains, nat_beq, if◌then◌else◌,
}
use mydocker.Base.Int.{ltb_ℤ}
use mydocker.Text.{Text, text_eq}
use mydocker.Domain.Sandbox.{initial_generation}
use mydocker.Operation.Vocabulary as Verbs
use mydocker.Operation.Vocabulary.{TargetKind, Stage, stage_eq, type_eq}
use mydocker.Operation.Target.{OperationId, Target, target_eq}
use mydocker.Ownership.Vocabulary
use mydocker.Ownership.Vocabulary.{Provider, Provider-discrete, Kind, Kind-discrete, kind_eq}
use mydocker.Ownership.Receipt.{
  Receipt, Release, ownership_schema_version, validate_receipt, validate_release,
}
use mydocker.Ownership.Profile.{validate_profile, validate_prefix}
use mydocker.State.Errors.{Error, Check, invalid_record, unsupported_schema}
use mydocker.State.Advance.{operation_stage_rank}
use mydocker.State.Records.{OperationRecord, linux_m2, abstract_m1, other_profile}

pub record HostReceiptKey : Type 0 where
  pub provider : Provider
  pub kind : Kind

unfoldable pub HostReceiptKey-discrete : Discrete HostReceiptKey
unfolding Provider-discrete Kind-discrete
HostReceiptKey-discrete = hlevel (Provider-discrete, Kind-discrete)

instance abbrev pub key_eq : Eq HostReceiptKey
key_eq = discrete_eq HostReceiptKey-discrete

unfoldable pub receipt_key : Receipt → HostReceiptKey
receipt_key r = record { provider = r.provider; kind = r.kind }

-- `if err := ...; err != nil` around a check of another package.
abbrev pub unless_ok {ℓ κ} : {E : Type ℓ} {A : Type κ} → Result E A → Error → Check
unless_ok r e = fail_if (not (is_ok r)) e

-- The first stage at which the receipt of a kind may exist.
unfoldable pub minimum_receipt_stage : Kind → Stage
minimum_receipt_stage Vocabulary.sandbox_cgroup = Verbs.prepare_cgroup
minimum_receipt_stage Vocabulary.attempt_cgroup = Verbs.prepare_cgroup
minimum_receipt_stage Vocabulary.keeper_cgroup = Verbs.prepare_cgroup
minimum_receipt_stage Vocabulary.start_gate = Verbs.prepare_start_gate
minimum_receipt_stage Vocabulary.streams = Verbs.prepare_streams
minimum_receipt_stage Vocabulary.keeper_process = Verbs.create_process
minimum_receipt_stage Vocabulary.init_process = Verbs.create_process
minimum_receipt_stage Vocabulary.uts_namespace = Verbs.prepare_namespaces
minimum_receipt_stage Vocabulary.ipc_namespace = Verbs.prepare_namespaces
minimum_receipt_stage Vocabulary.network_namespace = Verbs.prepare_namespaces
minimum_receipt_stage Vocabulary.pid_namespace = Verbs.prepare_namespaces
minimum_receipt_stage Vocabulary.mount_namespace = Verbs.prepare_namespaces
minimum_receipt_stage Vocabulary.rootfs_mount = Verbs.prepare_rootfs
minimum_receipt_stage (Vocabulary.other_kind _) = Verbs.complete

abbrev pub sandbox_kinds : List Kind
sandbox_kinds =
    Vocabulary.sandbox_cgroup ∷ Vocabulary.keeper_cgroup ∷ Vocabulary.keeper_process
    ∷ Vocabulary.uts_namespace ∷ Vocabulary.ipc_namespace ∷ Vocabulary.network_namespace ∷ []

abbrev pub attempt_kinds : List Kind
attempt_kinds =
    Vocabulary.attempt_cgroup ∷ Vocabulary.start_gate ∷ Vocabulary.streams ∷ Vocabulary.init_process
    ∷ Vocabulary.pid_namespace ∷ Vocabulary.mount_namespace ∷ Vocabulary.rootfs_mount ∷ []

abbrev pub at_index {ℓ} : {A : Type ℓ} → ℕ → List A → Option A
at_index n [] = none
at_index zero (x ∷ xs) = some x
at_index (suc n) (x ∷ xs) = at_index n xs

unfoldable pub next_profile_kind : TargetKind → ℕ → Option Kind
next_profile_kind Verbs.sandbox n = at_index n sandbox_kinds
next_profile_kind _ n = at_index n attempt_kinds

-- The kind of the last receipt.
abbrev pub last_kind : Receipt → List Receipt → Kind
last_kind r [] = r.kind
last_kind r (x ∷ xs) = last_kind x xs

-- The next receipt, where there is one, may not be passed over.
abbrev pub skips : Stage → Option Kind → Bool
skips stage none = false
skips stage (some kind) =
    ltb_ℤ (operation_stage_rank (minimum_receipt_stage kind)) (operation_stage_rank stage)

unfoldable pub validate_receipt_stage_prefix : TargetKind → Stage → List Receipt → Check
unfolding minimum_receipt_stage next_profile_kind operation_stage_rank
validate_receipt_stage_prefix target stage [] = ok tt
validate_receipt_stage_prefix target stage (r ∷ rs) =
    if stage == Verbs.rollback || stage == Verbs.persist_result || stage == Verbs.complete
    then ok tt
    else do
      fail_if
          (ltb_ℤ (operation_stage_rank stage)
            (operation_stage_rank (minimum_receipt_stage (last_kind r rs))))
          (invalid_record "stage before receipt")
      fail_if (skips stage (next_profile_kind target (length (r ∷ rs))))
          (invalid_record "stage skipped receipt")

unfoldable pub receipt_kind_allowed_for_target : Kind → TargetKind → Bool
receipt_kind_allowed_for_target k Verbs.sandbox = contains k sandbox_kinds
receipt_kind_allowed_for_target k Verbs.container = contains k attempt_kinds
receipt_kind_allowed_for_target k Verbs.attempt = contains k attempt_kinds
receipt_kind_allowed_for_target k (Verbs.other_kind _) = false

module _ (token : OperationId → Target → ℕ → Text) where
  unfoldable pub validate_receipt_value : Receipt → Check
  validate_receipt_value r = do
    fail_if (not (nat_beq r.version ownership_schema_version)) (unsupported_schema "receipt")
    unless_ok (validate_receipt token r) (invalid_record "ownership receipt")

  -- The loop over the receipts, with the slots already seen.
  unfoldable pub scan_acquisitions : OperationRecord → List HostReceiptKey → List Receipt → Check
  unfolding validate_receipt_value receipt_kind_allowed_for_target receipt_key
  scan_acquisitions o seen [] = ok tt
  scan_acquisitions o seen (r ∷ rs) = do
    validate_receipt_value r
    fail_if
        (not (r.owner.operation_id == o.operation.id) || not (r.owner.target == o.operation.target))
        (invalid_record "receipt owner")
    fail_if (not (nat_beq r.owner.generation initial_generation))
        (invalid_record "receipt generation")
    fail_if (not (receipt_kind_allowed_for_target r.kind o.operation.target.kind))
        (invalid_record "receipt kind")
    fail_if (contains (receipt_key r) seen) (invalid_record "receipt slot")
    scan_acquisitions o (receipt_key r ∷ seen) rs

  unfoldable pub validate_acquisition_receipts : OperationRecord → Check
  unfolding scan_acquisitions
  validate_acquisition_receipts o = scan_acquisitions o [] o.receipts

  unfoldable pub validate_host_profile_record : OperationRecord → Check
  unfolding validate_receipt_stage_prefix
  validate_host_profile_record o = elim o.profile [
    | abstract_m1 ↦
        fail_if (not (is_empty o.receipts) || not (is_empty o.releases))
          (invalid_record "abstract operation")
    | linux_m2 ↦
        if not (o.operation.type == Verbs.create)
        then fail_if (not (is_empty o.receipts)) (invalid_record "non-create operation")
        else do
          unless_ok (validate_prefix token o.operation.target.kind o.receipts)
              (invalid_record "receipt prefix")
          validate_receipt_stage_prefix o.operation.target.kind o.operation.stage o.receipts
    | other_profile _ ↦ err (invalid_record "host profile")
  ]

  -- The loop over the releases, with the slots already seen.
  unfoldable pub scan_releases : OperationRecord → List HostReceiptKey → List Release → Check
  unfolding receipt_key
  scan_releases o seen [] = ok tt
  scan_releases o seen (r ∷ rs) = do
    fail_if (not (nat_beq r.version ownership_schema_version)) (unsupported_schema "release")
    unless_ok (validate_release token r) (invalid_record "release")
    fail_if
        (not (r.cleanup_operation_id == o.operation.id)
          || not (r.resource.owner.target == o.operation.target))
        (invalid_record "release binding")
    fail_if (contains (receipt_key r.resource) seen) (invalid_record "release slot")
    scan_releases o (receipt_key r.resource ∷ seen) rs

  unfoldable pub validate_cleanup_releases : OperationRecord → Check
  unfolding scan_releases operation_stage_rank
  validate_cleanup_releases o = if is_empty o.releases then ok tt else do
    fail_if (not (o.operation.type == Verbs.delete)) (invalid_record "releases")
    fail_if (ltb_ℤ (operation_stage_rank o.operation.stage) (operation_stage_rank Verbs.teardown))
        (invalid_record "releases before teardown")
    scan_releases o [] o.releases

  -- The loop over an inventory, with the slots already seen.
  unfoldable pub scan_inventory : ℕ → List Target → List HostReceiptKey → List Receipt → Check
  unfolding validate_receipt_value receipt_kind_allowed_for_target receipt_key
  scan_inventory generation targets seen [] = ok tt
  scan_inventory generation targets seen (r ∷ rs) = do
    validate_receipt_value r
    fail_if (not r.adopted) (invalid_record "host resource")
    fail_if (not (nat_beq r.owner.generation generation))
        (invalid_record "host resource generation")
    fail_if (not (contains r.owner.target targets)) (invalid_record "host resource target")
    fail_if (not (receipt_kind_allowed_for_target r.kind r.owner.target.kind))
        (invalid_record "host resource kind")
    fail_if (contains (receipt_key r) seen) (invalid_record "host resource slot")
    scan_inventory generation targets (receipt_key r ∷ seen) rs

  -- The profile of the target that the first receipt names.
  abbrev pub whole_profile : List Receipt → Check
  whole_profile [] = ok tt
  whole_profile (r ∷ rs) =
      unless_ok (validate_profile token r.owner.target.kind (r ∷ rs))
        (invalid_record "host resource profile")

  unfoldable pub validate_host_resource_inventory : List Receipt → ℕ → List Target → Check
  unfolding scan_inventory
  validate_host_resource_inventory receipts generation targets = do
    scan_inventory generation targets [] receipts
    whole_profile receipts
