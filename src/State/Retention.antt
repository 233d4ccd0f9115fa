-- ===== src/State/Retention.antt =====
-- internal/state/retention.go: the terminal order, the tombstones of old terminal operations, and the suffix
-- of the events that is kept.
pub mod Laws
pub mod Replay
pub mod Bounds
pub mod Newest
use mydocker.Base.{
  ℕ, ◌+◌, ◌-◌, ◌^◌, Bool, true, false, not, ◌&&◌, ◌||◌, ◌==◌, List, [], ◌∷◌, map, Option, none,
  some, Result, ok, err, Eq, fail_if, ◌>>◌, ◌>>=◌, is_empty, is_some, any, contains, drop, length,
  take, ltb, leb, nat_beq, Dict, lookup, insert, remove, if◌then◌else◌, sort_by, text_less, String,
  all,
}
use mydocker.Base.Int.{ℤ, pos, negsuc, ltb_ℤ, int_eq, pos_part}
use mydocker.Text.{Text, text_eq}
use mydocker.Operation.Vocabulary.{is_type, is_reason, is_terminal}
use mydocker.Operation.Target.{OperationId, validate_target, validate_fingerprint, next_sequence}
use mydocker.Operation.Event.{Event}
use mydocker.Ownership.Receipt.{Receipt}
use mydocker.State.Errors.{Error, Check, invalid_record, invariant_violation, retention_capacity}
use mydocker.State.Advance.{max_revision}
use mydocker.State.Records.{SandboxRecord, ContainerAttemptRecord, OperationRecord}
use mydocker.State.Receipts.{unless_ok}
use mydocker.State.Store.{MemoryData, RetiredOperation, RetentionPolicy}

abbrev pub default_policy : RetentionPolicy
default_policy = record {
  terminal_limit = pos 1024;
  identity_limit = pos 65536;
  event_limit = pos 8192;
}

unfoldable pub validate_policy : RetentionPolicy → Check
validate_policy p = do
  fail_if (not (ltb_ℤ (pos 0) p.terminal_limit)) (invalid_record "terminal operation limit")
  fail_if (ltb_ℤ p.identity_limit p.terminal_limit) (invalid_record "operation identity limit")
  fail_if (not (ltb_ℤ (pos 0) p.event_limit)) (invalid_record "event limit")

-- A byte that hex.DecodeString reads and stringLower leaves as it is.
abbrev pub is_lower_hex_byte : ℕ → Bool
is_lower_hex_byte b = leb b'0' b && leb b b'9' || leb b'a' b && leb b b'f'

unfoldable pub validate_retired : RetiredOperation → Check
validate_retired r = do
  fail_if (not (nat_beq (length r.id_sha256) 64)) (invalid_record "retired operation digest")
  fail_if (not (all is_lower_hex_byte r.id_sha256)) (invalid_record "retired operation digest")
  fail_if (not (is_type r.type)) (invalid_record "retired operation type")
  unless_ok (validate_target r.target) (invalid_record "retired operation target")
  unless_ok (validate_fingerprint r.fingerprint) (invalid_record "retired operation fingerprint")
  fail_if (not (is_reason r.reason) || nat_beq r.terminal_sequence 0)
      (invalid_record "retired operation metadata")

-- The sequence of the last event of an operation, with that of the last one read; 0 where none is kept.
unfoldable pub last_event_from : OperationId → ℕ → List Event → ℕ
last_event_from id last [] = last
last_event_from id last (e ∷ es) =
    last_event_from id (if e.operation_id == id then e.sequence else last) es

unfoldable pub last_event_for_operation : MemoryData → OperationId → ℕ
unfolding last_event_from
last_event_for_operation d id = last_event_from id 0 d.events

unfoldable pub next_available_event_sequence : MemoryData → ℕ
next_available_event_sequence d = elim d.events [
  | e ∷ _ ↦ e.sequence
  | [] ↦ elim (next_sequence d.last_event) [ ok next ↦ next | err _ ↦ d.last_event ]
]

abbrev pub order_or_zero : Option ℕ → ℕ
order_or_zero none = 0
order_or_zero (some n) = n

-- The terminal operations that have no order yet; an active one may have none.
unfoldable pub missing_orders :
    Dict Text ℕ → Dict Text OperationRecord → Result Error (List OperationId)
unfolding is_terminal
missing_orders terminal [] = ok []
missing_orders terminal ((id, r) ∷ m) =
    if not (is_terminal r.operation.state)
    then if is_some (lookup id terminal)
      then err (invariant_violation "active operation")
      else missing_orders terminal m
    else do
      rest ← missing_orders terminal m
      ok (if nat_beq (order_or_zero (lookup id terminal)) 0 then id ∷ rest else rest)

-- Which of two operations is given the earlier order.
unfoldable pub precedes : MemoryData → OperationId → OperationId → Bool
unfolding last_event_for_operation text_less
precedes d left right =
    let left_event = last_event_for_operation d left in
    let right_event = last_event_for_operation d right in
    if not (nat_beq left_event right_event)
    then if nat_beq left_event 0
      then true
      else if nat_beq right_event 0
      then false
      else ltb left_event right_event
    else text_less left right

unfoldable pub assign_orders : List OperationId → MemoryData → Result Error MemoryData
assign_orders [] d = ok d
assign_orders (id ∷ ids) d =
    if nat_beq d.last_terminal max_revision
    then err (retention_capacity "terminal sequence")
    else assign_orders ids (record d {
      last_terminal = d.last_terminal + 1;
      terminal = insert id (d.last_terminal + 1) d.terminal;
    })

-- Beside the data: has it changed?
unfoldable pub assign_terminal_sequences : MemoryData → Result Error (MemoryData × Bool)
unfolding missing_orders precedes assign_orders sort_by
assign_terminal_sequences d = do
  missing ← missing_orders d.terminal d.operations
  assigned ← assign_orders (sort_by (precedes d) missing) d
  ok (assigned, not (is_empty missing))

-- An operation that owns a receipt of an inventory is kept.
abbrev pub owns : OperationId → List Receipt → Bool
owns id = any (λ (r : Receipt). r.owner.operation_id == id)

unfoldable pub is_pinned : MemoryData → OperationId → Bool
is_pinned d id =
    any (λ (x : Text × SandboxRecord). owns id x.1.host_resources) d.sandboxes
    || any (λ (x : Text × ContainerAttemptRecord). owns id x.1.host_resources) d.pairs

abbrev pub inconsistent : ℕ → Option OperationRecord → Bool
inconsistent order none = true
inconsistent order (some r) = not (is_terminal r.operation.state) || nat_beq order 0

-- The terminal operations that may be retired, with their orders.
unfoldable pub retirable : MemoryData → Dict Text ℕ → Result Error (List (OperationId × ℕ))
unfolding is_pinned is_terminal
retirable d [] = ok []
retirable d ((id, order) ∷ m) = do
  fail_if (inconsistent order (lookup id d.operations)) (invariant_violation "terminal metadata")
  rest ← retirable d m
  ok (if is_pinned d id then rest else (id, order) ∷ rest)

abbrev pub is_older : OperationId × ℕ → OperationId × ℕ → Bool
is_older left right =
    if nat_beq left.1 right.1 then text_less left.0 right.0 else ltb left.1 right.1

-- The newest events that the limit leaves.
unfoldable pub keep_suffix : ℕ → List Event → List Event
keep_suffix limit events = drop (length events - limit) events

abbrev pub started : MemoryData → MemoryData
started d = if nat_beq d.first_event 0 then record d { first_event = 1 } else d

abbrev pub cut : RetentionPolicy → MemoryData → MemoryData
cut p d = record d { events = keep_suffix (pos_part p.event_limit) d.events }

abbrev pub settled : RetentionPolicy → MemoryData → MemoryData
settled p d = record (cut p d) { first_event = next_available_event_sequence (cut p d) }

module _ (id_digest : OperationId → Text) where
  abbrev pub tombstone : MemoryData → OperationId × ℕ → OperationRecord → RetiredOperation
  tombstone d (id, order) r = record {
    id_sha256 = id_digest id;
    type = r.operation.type;
    target = r.operation.target;
    fingerprint = r.operation.fingerprint;
    reason = r.operation.reason;
    terminal_sequence = order;
    terminal_event = last_event_for_operation d id;
  }

  -- Each of these has a record.
  unfoldable pub retire : List (OperationId × ℕ) → MemoryData → Result Error MemoryData
  unfolding last_event_for_operation
  retire [] d = ok d
  retire ((id, order) ∷ old) d = elim (lookup id d.operations) [
    | none ↦ err (invariant_violation "terminal metadata")
    | some r ↦
        if is_some (lookup (id_digest id) d.retired)
        then err (invariant_violation "retired digest collision")
        else retire old (record d {
          retired = insert (id_digest id) (tombstone d (id, order) r) d.retired;
          operations = remove id d.operations;
          terminal = remove id d.terminal;
        })
  ]

  -- The budget of identities, and the tombstones of the oldest terminal operations; beside them, how many.
  unfoldable pub retire_excess : RetentionPolicy → MemoryData → Result Error (MemoryData × ℕ)
  unfolding retirable sort_by text_less retire
  retire_excess p d = do
    fail_if (ltb_ℤ p.identity_limit (pos (length d.operations + length d.retired)))
        (retention_capacity "operation identities")
    terminal ← retirable d d.terminal
    let excess = length terminal - pos_part p.terminal_limit
    kept ← retire (take excess (sort_by is_older terminal)) d
    ok (kept, excess)

  -- applyRetention; the maps of a store in memory are never nil, and neither is its data.
  unfoldable pub apply_retention : RetentionPolicy → MemoryData → Result Error (MemoryData × Bool)
  unfolding validate_policy assign_terminal_sequences retire_excess keep_suffix
      next_available_event_sequence
  apply_retention p d = do
    validate_policy p
    (assigned, changed) ← assign_terminal_sequences (started d)
    (kept, excess) ← retire_excess p assigned
    ok (
      settled p kept,
      changed
          || ltb 0 excess
          || ltb (pos_part p.event_limit) (length kept.events)
          || not (nat_beq (cut p kept).first_event (settled p kept).first_event),
    )
