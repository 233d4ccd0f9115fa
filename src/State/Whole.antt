-- ===== src/State/Whole.antt =====
-- internal/state/memory.go, memoryData.validate: the invariants of the whole store at a commit. The maps of a store
-- in memory are never nil.
use mydocker.Base.{
  nat_eq, bool_beq, ℕ, Bool, false, not, ◌&&◌, ◌||◌, ◌==◌, List, [], ◌∷◌, map, Option, none, some,
  Result, ok, err, fail_if, ◌>>◌, ◌>>=◌, is_empty, is_some, all, contains, length, nat_beq, ltb,
  Dict, lookup, if◌then◌else◌, option_eq,
}
use mydocker.Text.{bytes, Text, text_eq}
use mydocker.Domain.SandboxPhase
use mydocker.Domain.SandboxPhase.{sandbox_phase_eq}
use mydocker.Domain.AttemptPhase
use mydocker.Domain.AttemptPhase.{attempt_phase_eq, is_active_attempt}
use mydocker.Domain.Conditions.{LifecycleObservation}
use mydocker.Domain.Container.{ContainerAttempt}
use mydocker.Domain.ActiveAttempt.{validate_one_active_attempt}
use mydocker.Operation.Vocabulary
use mydocker.Operation.Vocabulary.{type_eq, is_terminal, Verb, ReasonClass}
use mydocker.Operation.Target.{OperationId, Target, target_eq}
use mydocker.Operation.Event.{Event, validate_after}
use mydocker.State.Errors.{Error, Check, invariant_violation}
use mydocker.State.Records.{Codec, SandboxRecord, ContainerAttemptRecord, OperationRecord}
use mydocker.State.Receipts.{unless_ok}
use mydocker.State.Validation.{sandbox_target, container_target, attempt_target}
use mydocker.State.Graph.{all_checks, validate_ownership_graph}
use mydocker.State.Retention.{validate_retired, next_available_event_sequence, order_or_zero}
use mydocker.State.Store.{MemoryData, RetiredOperation, retired_operation_for}

-- string(reason)
unfoldable pub reason_text : ReasonClass → Text
reason_text Vocabulary.reason_none = bytes "none"
reason_text Vocabulary.invalid_request = bytes "invalid_request"
reason_text Vocabulary.conflict = bytes "conflict"
reason_text Vocabulary.not_found = bytes "not_found"
reason_text Vocabulary.precondition = bytes "precondition"
reason_text Vocabulary.internal = bytes "internal"
reason_text Vocabulary.cleanup = bytes "cleanup"
reason_text (Vocabulary.other_reason s) = s

-- The order of an event behind the one before it.
unfoldable pub validate_stream : (Text → Bool) → List Event → Check
validate_stream decodes [] = ok tt
validate_stream decodes (e ∷ []) = ok tt
validate_stream decodes (e ∷ x ∷ es) = do
  unless_ok (validate_after decodes x e) (invariant_violation "retained event ordering")
  validate_stream decodes (x ∷ es)

abbrev pub last_sequence : Event → List Event → ℕ
last_sequence e [] = e.sequence
last_sequence e (x ∷ es) = last_sequence x es

unfoldable pub validate_suffix : (Text → Bool) → MemoryData → Check
unfolding validate_stream next_available_event_sequence
validate_suffix decodes d = elim d.events [
  | [] ↦
      fail_if (not (nat_beq d.first_event (next_available_event_sequence d)))
        (invariant_violation "empty event suffix")
  | e ∷ es ↦ do
    fail_if
        (not (nat_beq e.sequence d.first_event) || not (nat_beq (last_sequence e es) d.last_event))
        (invariant_violation "event suffix boundaries")
    validate_stream decodes (e ∷ es)
]

abbrev pub binds : Verb → Target → Event → Bool
binds type target e = e.type == type && e.target == target

abbrev pub binds_retired : Option RetiredOperation → Event → Bool
binds_retired none e = false
binds_retired (some r) e = binds r.type r.target e

module _ (id_digest : OperationId → Text) where
  unfoldable pub validate_event_binding : MemoryData → Event → Check
  unfolding retired_operation_for
  validate_event_binding d e = elim (lookup e.operation_id d.operations) [
    | some o ↦
        fail_if (not (binds o.operation.type o.operation.target e))
          (invariant_violation "event binding")
    | none ↦
        fail_if (not (binds_retired (retired_operation_for id_digest d e.operation_id) e))
          (invariant_violation "event operation")
  ]

  -- An observation names an operation that is kept, or was, by its reason and target.
  abbrev pub check_compacted_operation : ReasonClass → Target → Text → List Target → Check
  check_compacted_operation reason target text resources = do
    fail_if (not (reason_text reason == text)) (invariant_violation "compacted observation reason")
    fail_if (not (contains target resources)) (invariant_violation "compacted observation target")

  abbrev pub check_retired_operation : Option RetiredOperation → Text → List Target → Check
  check_retired_operation none text resources = err (invariant_violation "compacted observation")
  check_retired_operation (some r) text resources =
      check_compacted_operation r.reason r.target text resources

  unfoldable pub validate_compacted_observation :
      MemoryData → LifecycleObservation → List Target → Check
  unfolding reason_text retired_operation_for
  validate_compacted_observation d o resources = do
    fail_if (not (ltb o.event_sequence d.first_event) || ltb d.last_event o.event_sequence)
        (invariant_violation "missing event")
    elim (lookup o.operation_id d.operations) [
      | some r ↦ check_compacted_operation r.operation.reason r.operation.target o.reason resources
      | none ↦
          check_retired_operation (retired_operation_for id_digest d o.operation_id) o.reason
            resources
    ]

  -- The event of a sequence: the last one, where several had it.
  unfoldable pub event_at : ℕ → List Event → Option Event
  event_at sequence [] = none
  event_at sequence (e ∷ es) =
      let later = event_at sequence es in
      if is_some later then later else if nat_beq e.sequence sequence then some e else none

  unfoldable pub validate_observation_reference :
      MemoryData → LifecycleObservation → List Target → Check
  unfolding validate_compacted_observation reason_text event_at
  validate_observation_reference d o resources =
      if nat_beq o.event_sequence 0 then ok tt else elim (event_at o.event_sequence d.events) [
        | none ↦ validate_compacted_observation d o resources
        | some e ↦ do
          fail_if (not (e.operation_id == o.operation_id) || not (reason_text e.reason == o.reason))
              (invariant_violation "event identity or reason")
          fail_if (not (all (λ (t : Target). contains t e.resources) resources))
              (invariant_violation "event resources")
      ]

  unfoldable pub validate_current_observation_generation :
      MemoryData → LifecycleObservation → ℕ → ℕ → Check
  unfolding event_at
  validate_current_observation_generation d o generation observed =
      if nat_beq o.event_sequence 0 then ok tt else elim (event_at o.event_sequence d.events) [
        | none ↦ ok tt
        | some e ↦
            fail_if
              (not (nat_beq e.generation generation)
                || not (nat_beq e.observed_generation observed))
              (invariant_violation "event generation")
      ]

  unfoldable pub validate_stored_sandbox : MemoryData → Text × SandboxRecord → Check
  unfolding validate_observation_reference validate_current_observation_generation
  validate_stored_sandbox d (id, r) = do
    fail_if (r.sandbox.status.phase == SandboxPhase.absent) (invariant_violation "absent sandbox")
    validate_observation_reference d r.sandbox.status.last_observation (sandbox_target id ∷ [])
    validate_current_observation_generation d r.sandbox.status.last_observation
        r.sandbox.status.generation r.sandbox.status.observed_generation

  -- The Sandbox of a pair is there, and ready where the pair is active.
  abbrev pub check_owner : ContainerAttempt → Option SandboxRecord → Check
  check_owner p none = err (invariant_violation "missing sandbox")
  check_owner p (some s) =
      fail_if
        (is_active_attempt p.attempt.phase && not (s.sandbox.status.phase == SandboxPhase.ready))
        (invariant_violation "active container in non-ready sandbox")

  unfoldable pub validate_stored_pair : MemoryData → Text × ContainerAttemptRecord → Check
  unfolding validate_observation_reference validate_current_observation_generation
  validate_stored_pair d (id, r) = do
    fail_if (r.pair.attempt.phase == AttemptPhase.absent) (invariant_violation "absent container")
    validate_observation_reference d r.pair.attempt.last_observation
        (container_target r.pair.container.id ∷ attempt_target r.pair.attempt.id ∷ [])
    validate_current_observation_generation d r.pair.attempt.last_observation
        r.pair.container.status.generation r.pair.container.status.observed_generation
    check_owner r.pair (lookup r.pair.container.sandbox_id d.sandboxes)

  unfoldable pub validate_terminal : MemoryData → Text × OperationRecord → Check
  unfolding is_terminal
  validate_terminal d (id, o) = do
    fail_if (is_terminal o.operation.state && is_empty o.operation.response)
        (invariant_violation "terminal state without response")
    fail_if
        (not (bool_beq (is_terminal o.operation.state) (is_some (lookup id d.terminal)))
          || (is_some (lookup id d.terminal) && nat_beq (order_or_zero (lookup id d.terminal)) 0))
        (invariant_violation "terminal order")

-- The orders so far, and the greatest of them.
abbrev pub Orders : Type 0
Orders = List ℕ × ℕ

abbrev pub greater : ℕ → ℕ → ℕ
greater n m = if ltb m n then n else m

unfoldable pub scan_orders : Orders → Dict Text ℕ → Result Error Orders
scan_orders orders [] = ok orders
scan_orders (seen, maximum) ((id, n) ∷ m) = do
  fail_if (contains n seen) (invariant_violation "shared terminal order")
  scan_orders (n ∷ seen, greater n maximum) m

unfoldable pub scan_retired : MemoryData → Orders → Dict Text RetiredOperation → Result Error Orders
unfolding validate_retired
scan_retired d orders [] = ok orders
scan_retired d (seen, maximum) ((digest, r) ∷ m) = do
  fail_if (not (digest == r.id_sha256)) (invariant_violation "retired operation key")
  validate_retired r
  fail_if (ltb d.last_terminal r.terminal_sequence) (invariant_violation "retired operation order")
  fail_if (contains r.terminal_sequence seen) (invariant_violation "shared terminal order")
  fail_if (ltb d.last_event r.terminal_event) (invariant_violation "retired operation event")
  scan_retired d (r.terminal_sequence ∷ seen, greater r.terminal_sequence maximum) m

unfoldable pub validate_orders : MemoryData → Check
unfolding scan_orders scan_retired
validate_orders d = do
  active ← scan_orders ([], 0) d.terminal
  orders ← scan_retired d active d.retired
  fail_if (not (nat_beq orders.1 d.last_terminal)) (invariant_violation "terminal high watermark")
  fail_if (not (nat_beq (length orders.0) d.last_terminal)) (invariant_violation "terminal orders")

-- The references of a Sandbox to its current pair. They are nil together.
abbrev pub check_current : MemoryData → Text → Option Text → Option Text → Check
check_current d id (some container_id) (some attempt_id) = elim (lookup container_id d.pairs) [
  | none ↦ err (invariant_violation "dangling current pair")
  | some r ↦
      fail_if (not (r.pair.attempt.id == attempt_id) || not (r.pair.container.sandbox_id == id))
        (invariant_violation "dangling current pair")
]
check_current d id _ _ = ok tt

unfoldable pub validate_current_reference : MemoryData → Text × SandboxRecord → Check
validate_current_reference d (id, r) =
    check_current d id r.sandbox.status.current_container_id r.sandbox.status.current_attempt_id

abbrev pub names_pair : Text → Text → Option SandboxRecord → Bool
names_pair container_id attempt_id none = false
names_pair container_id attempt_id (some s) =
    s.sandbox.status.current_container_id == some container_id
    && s.sandbox.status.current_attempt_id == some attempt_id

unfoldable pub validate_active_pair : MemoryData → Text × ContainerAttemptRecord → Check
validate_active_pair d (id, r) =
    fail_if
      (is_active_attempt r.pair.attempt.phase
        && not (names_pair id r.pair.attempt.id (lookup r.pair.container.sandbox_id d.sandboxes)))
      (invariant_violation "active container is not current")

abbrev pub pair_of : Text × ContainerAttemptRecord → ContainerAttempt
pair_of x = x.1.pair

unfoldable pub validate_store : Codec → MemoryData → Check
unfolding validate_suffix validate_event_binding validate_terminal validate_orders
    validate_stored_sandbox validate_stored_pair validate_current_reference validate_active_pair
    validate_ownership_graph
validate_store codec d = do
  fail_if (nat_beq d.first_event 0) (invariant_violation "retention metadata")
  validate_suffix codec.decodes d
  all_checks (validate_event_binding codec.id_digest d) d.events
  all_checks (validate_terminal codec.id_digest d) d.operations
  validate_orders d
  all_checks (validate_stored_sandbox codec.id_digest d) d.sandboxes
  all_checks (validate_stored_pair codec.id_digest d) d.pairs
  unless_ok (validate_one_active_attempt (map pair_of d.pairs))
      (invariant_violation "container attempt set")
  all_checks (validate_current_reference d) d.sandboxes
  all_checks (validate_active_pair d) d.pairs
  validate_ownership_graph d
