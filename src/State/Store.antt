-- ===== src/State/Store.antt =====
-- internal/state/memory.go: the data of the store, and the reads of a view. A map is read in the order of its
-- list where Go's order is arbitrary; a clone is the value itself.
use mydocker.Base.{
  suc, zero, suc, ℕ, ◌-◌, Bool, not, ◌&&◌, ◌||◌, ◌==◌, List, [], ◌∷◌, map, Option, none, some,
  Result, ok, err, fail_if, ◌>>◌, ◌>>=◌, is_some, keep, take, ltb, leb, nat_beq, Dict, lookup,
  if◌then◌else◌, sort_by, text_less,
}
use mydocker.Base.Int.{ℤ, pos, negsuc, ltb_ℤ}
use mydocker.Text.{Text, text_eq}
use mydocker.Operation.Vocabulary.{Verb, ReasonClass, is_pending_or_running}
use mydocker.Operation.Target.{OperationId, Target, target_eq, validate_target, RequestFingerprint}
use mydocker.Operation.Event.{Event}
use mydocker.State.Errors.{
  Error, Check, invalid_record, not_found, operation_expired, invariant_violation,
  invalid_event_limit, event_resume_gap, transaction_closed, read_only,
}
use mydocker.State.Records.{SandboxRecord, ContainerAttemptRecord, OperationRecord}
use mydocker.State.Receipts.{unless_ok}

-- A terminal operation whose record is gone.
pub record RetiredOperation : Type 0 where
  pub id_sha256 : Text
  pub type : Verb
  pub target : Target
  pub fingerprint : RequestFingerprint
  pub reason : ReasonClass
  pub terminal_sequence : ℕ
  pub terminal_event : ℕ

pub record RetentionPolicy : Type 0 where
  pub terminal_limit : ℤ
  pub identity_limit : ℤ
  pub event_limit : ℤ

pub record MemoryData : Type 0 where
  pub sandboxes : Dict Text SandboxRecord
  pub pairs : Dict Text ContainerAttemptRecord
  pub operations : Dict Text OperationRecord
  pub events : List Event
  pub last_event : ℕ
  pub first_event : ℕ
  pub terminal : Dict Text ℕ
  pub last_terminal : ℕ
  pub retired : Dict Text RetiredOperation

unfoldable pub new_memory_data : MemoryData
new_memory_data = record {
  sandboxes = [];
  pairs = [];
  operations = [];
  events = [];
  last_event = 0;
  first_event = 1;
  terminal = [];
  last_terminal = 0;
  retired = [];
}

pub record View : Type 0 where
  pub data_of : MemoryData
  pub writable : Bool
  pub retention : RetentionPolicy
  pub closed : Bool

unfoldable pub ensure_open : View → Check
ensure_open v = fail_if v.closed transaction_closed

unfoldable pub ensure_writable : View → Check
unfolding ensure_open
ensure_writable v = do ensure_open v; fail_if (not v.writable) read_only

-- record, ok := m[id], or the error.
abbrev pub found {ℓ} : {A : Type ℓ} → Option A → Error → Result Error A
found none e = err e
found (some a) e = ok a

-- The values in the order of their keys.
unfoldable pub in_key_order {ℓ} : {A : Type ℓ} → Dict Text A → List A
unfolding sort_by text_less
in_key_order {A = A} m =
    map (λ (x : Text × A). x.1) (sort_by (λ (x y : Text × A). text_less x.0 y.0) m)

unfoldable pub get_sandbox : View → Text → Result Error SandboxRecord
unfolding ensure_open
get_sandbox v id = do ensure_open v; found (lookup id v.data_of.sandboxes) (not_found "sandbox")

unfoldable pub list_sandboxes : View → Result Error (List SandboxRecord)
unfolding ensure_open in_key_order
list_sandboxes v = do ensure_open v; ok (in_key_order v.data_of.sandboxes)

unfoldable pub get_container_attempt : View → Text → Result Error ContainerAttemptRecord
unfolding ensure_open
get_container_attempt v id = do
  ensure_open v
  found (lookup id v.data_of.pairs) (not_found "container")

abbrev pub is_in_sandbox : Text → ContainerAttemptRecord → Bool
is_in_sandbox id r = r.pair.container.sandbox_id == id

unfoldable pub list_container_attempts : View → Text → Result Error (List ContainerAttemptRecord)
unfolding ensure_open in_key_order
list_container_attempts v id = do
  ensure_open v
  ok (
      in_key_order
        (keep (λ (x : Text × ContainerAttemptRecord). is_in_sandbox id x.1) v.data_of.pairs))

unfoldable pub list_operations : View → Result Error (List OperationRecord)
unfolding ensure_open in_key_order
list_operations v = do ensure_open v; ok (in_key_order v.data_of.operations)

abbrev pub holds_target : Target → OperationRecord → Bool
holds_target target r = is_pending_or_running r.operation.state && r.operation.target == target

-- The loop of ActiveOperation, with the match so far.
unfoldable pub scan_active :
    Target
    → Option OperationRecord
    → Dict Text OperationRecord
    → Result Error (Option OperationRecord)
unfolding is_pending_or_running
scan_active target match [] = ok match
scan_active target match ((_, r) ∷ m) =
    if not (holds_target target r)
    then scan_active target match m
    else if is_some match
    then err (invariant_violation "multiple active operations")
    else scan_active target (some r) m

unfoldable pub active_operation : View → Target → Result Error OperationRecord
unfolding ensure_open scan_active
active_operation v target = do
  ensure_open v
  unless_ok (validate_target target) (invalid_record "active operation target")
  match ← scan_active target none v.data_of.operations
  found match (not_found "active operation")

module _ (id_digest : OperationId → Text) where
  unfoldable pub retired_operation_for : MemoryData → OperationId → Option RetiredOperation
  retired_operation_for d id = lookup (id_digest id) d.retired

  -- The error of an identity that has no record.
  abbrev pub missing_operation : Option RetiredOperation → Error
  missing_operation none = not_found "operation"
  missing_operation (some _) = operation_expired

  unfoldable pub get_operation : View → OperationId → Result Error OperationRecord
  unfolding ensure_open retired_operation_for
  get_operation v id = do
    ensure_open v
    found (lookup id v.data_of.operations) (missing_operation (retired_operation_for v.data_of id))

-- A page of a stream; no limit is 0.
abbrev pub page {ℓ} : {A : Type ℓ} → ℤ → List A → List A
page (pos zero) xs = xs
page (pos (suc n)) xs = take (suc n) xs
page (negsuc _) xs = xs

-- A resume position outside the stream that is kept.
unfoldable pub is_gap : MemoryData → ℕ → Bool
is_gap d after =
    not (nat_beq after 0)
    && (ltb d.last_event after || (ltb 1 d.first_event && ltb after (d.first_event - 1)))

unfoldable pub events_after : View → ℕ → ℤ → Result Error (List Event)
unfolding ensure_open is_gap
events_after v after limit = do
  ensure_open v
  fail_if (ltb_ℤ limit (pos 0)) invalid_event_limit
  fail_if (is_gap v.data_of after)
      (event_resume_gap after v.data_of.first_event v.data_of.last_event)
  ok (page limit (keep (λ (e : Event). not (leb e.sequence after)) v.data_of.events))
