-- ===== src/State/Graph.antt =====
-- internal/state/memory.go: each receipt of an inventory is traced to the operation that acquired it, and each
-- adopted receipt to an inventory or to the delete that released it.
use mydocker.Base.{
  Bool, false, not, ◌&&◌, ◌==◌, List, [], ◌∷◌, Option, none, some, ok, err, fail_if, ◌>>◌, is_empty,
  any, all, length, nat_beq, Dict, lookup, if◌then◌else◌,
}
use mydocker.Text.{Text, text_eq}
use mydocker.Operation.Vocabulary
use mydocker.Operation.Vocabulary.{type_eq, state_eq, result_eq}
use mydocker.Operation.Target.{Target, target_eq}
use mydocker.Ownership.Receipt.{Receipt, Release}
use mydocker.State.Errors.{Check, invariant_violation}
use mydocker.State.Records.{SandboxRecord, ContainerAttemptRecord, OperationRecord}
use mydocker.State.Receipts.{receipt_key, key_eq}
use mydocker.State.Links.{receipt_eq}
use mydocker.State.Store.{MemoryData}

abbrev pub all_checks {ℓ} : {A : Type ℓ} → (A → Check) → List A → Check
all_checks check [] = ok tt
all_checks check (x ∷ xs) = do check x; all_checks check xs

-- One receipt is that one, adopted, in the same slot.
abbrev pub is_acquired : Receipt → List Receipt → Bool
is_acquired r = any (λ (x : Receipt). receipt_key x == receipt_key r && x.adopted && x == r)

unfoldable pub validate_inventory_provenance : MemoryData → Receipt → Check
unfolding receipt_key
validate_inventory_provenance d r = elim (lookup r.owner.operation_id d.operations) [
  | none ↦ err (invariant_violation "owner operation")
  | some o ↦ do
    fail_if (not (o.operation.target == r.owner.target)) (invariant_violation "owner target")
    fail_if (not (is_acquired r o.receipts)) (invariant_violation "adopted receipt")
]

abbrev pub attempt_inventory : Text → Dict Text ContainerAttemptRecord → Option (List Receipt)
attempt_inventory id [] = none
attempt_inventory id ((_, r) ∷ m) =
    if r.pair.attempt.id == id then some r.host_resources else attempt_inventory id m

unfoldable pub inventory_for_target : MemoryData → Target → Option (List Receipt)
inventory_for_target d t = elim t.kind [
  | Vocabulary.sandbox ↦ elim (lookup t.id d.sandboxes) [
    | none ↦ none
    | some r ↦ some r.host_resources
  ]
  | Vocabulary.container ↦ elim (lookup t.id d.pairs) [
    | none ↦ none
    | some r ↦ some r.host_resources
  ]
  | Vocabulary.attempt ↦ attempt_inventory t.id d.pairs
  | _ ↦ none
]

unfoldable pub is_successful_resource_delete : OperationRecord → Target → Bool
is_successful_resource_delete o target =
    o.operation.type == Vocabulary.delete
    && o.operation.target == target
    && o.operation.state == Vocabulary.succeeded
    && o.operation.result == Vocabulary.result_succeeded

abbrev pub releases_receipt : List Release → Receipt → Bool
releases_receipt releases r = any (λ (x : Release). x.resource == r) releases

-- One successful delete covers the whole inventory of the create.
unfoldable pub create_has_complete_verified_release : MemoryData → OperationRecord → Bool
unfolding is_successful_resource_delete
create_has_complete_verified_release d create =
    any
      (λ (x : Text × OperationRecord).
        is_successful_resource_delete x.1 create.operation.target
        && nat_beq (length x.1.releases) (length create.receipts)
        && all (releases_receipt x.1.releases) create.receipts)
      d.operations

unfoldable pub has_verified_release : MemoryData → OperationRecord → Receipt → Bool
unfolding create_has_complete_verified_release is_successful_resource_delete
has_verified_release d create r =
    create_has_complete_verified_release d create
    && any
        (λ (x : Text × OperationRecord).
          is_successful_resource_delete x.1 create.operation.target
          && releases_receipt x.1.releases r)
        d.operations

unfoldable pub receipt_set_contains : List Receipt → Receipt → Bool
unfolding receipt_key
receipt_set_contains receipts want =
    any (λ (x : Receipt). receipt_key x == receipt_key want && x == want) receipts

unfoldable pub same_receipt_set : List Receipt → List Receipt → Bool
unfolding receipt_set_contains
same_receipt_set left right =
    nat_beq (length left) (length right) && all (receipt_set_contains right) left

abbrev pub is_stored : Option (List Receipt) → Receipt → Bool
is_stored none r = false
is_stored (some inventory) r = receipt_set_contains inventory r

-- The adopted receipts of an operation, one by one.
unfoldable pub validate_adopted : MemoryData → OperationRecord → Receipt → Check
unfolding inventory_for_target receipt_set_contains has_verified_release
validate_adopted d o r =
    if not r.adopted
    then ok tt
    else fail_if
        (not (is_stored (inventory_for_target d r.owner.target) r)
          && not (has_verified_release d o r))
        (invariant_violation "adopted receipt without inventory")

abbrev pub check_inventory : MemoryData → OperationRecord → Option (List Receipt) → Check
check_inventory d o none =
    fail_if (not (create_has_complete_verified_release d o))
      (invariant_violation "no target inventory")
check_inventory d o (some inventory) =
    fail_if
      (not (same_receipt_set o.receipts inventory)
        && not (create_has_complete_verified_release d o))
      (invariant_violation "target inventory")

abbrev pub acquired_all : OperationRecord → Bool
acquired_all o =
    o.operation.type == Vocabulary.create
    && o.operation.state == Vocabulary.succeeded
    && not (is_empty o.receipts)

unfoldable pub validate_operation_ownership : MemoryData → OperationRecord → Check
unfolding validate_adopted inventory_for_target same_receipt_set
    create_has_complete_verified_release
validate_operation_ownership d o = do
  all_checks (validate_adopted d o) o.receipts
  if acquired_all o then check_inventory d o (inventory_for_target d o.operation.target) else ok tt

unfoldable pub validate_ownership_graph : MemoryData → Check
unfolding validate_inventory_provenance validate_operation_ownership
validate_ownership_graph d = do
  all_checks
      (λ (x : Text × SandboxRecord).
        all_checks (validate_inventory_provenance d) x.1.host_resources)
      d.sandboxes
  all_checks
      (λ (x : Text × ContainerAttemptRecord).
        all_checks (validate_inventory_provenance d) x.1.host_resources)
      d.pairs
  all_checks (λ (x : Text × OperationRecord). validate_operation_ownership d x.1) d.operations
