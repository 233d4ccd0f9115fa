-- ===== src/State/Sample.antt =====
-- A concrete store, reached by one transaction.
use mydocker.State.Same.{SandboxSpec-discrete}
use mydocker.Domain.Sample.{execution, ready_demo, demo, opened}
use mydocker.Base.{
  ℕ, ◌≡◌, refl, true, false, [], ◌∷◌, none, some, ok, ◌==◌, contains, lookup, insert, remove,
  sort_by, text_less, is_ok,
}
use mydocker.Base.Int.{pos, ℤ-discrete}
use mydocker.Text.{Text, bytes, text_eq, Text-discrete, is_control}
use mydocker.Operation.Vocabulary
use mydocker.Operation.Record.{Operation, binding}
use mydocker.Operation.Resolve.{resolve}
use mydocker.Operation.Event.{Event}
use mydocker.Operation.Sample.{operation_opened}
use mydocker.Ownership.Sample as Receipts
use mydocker.Domain.ActiveAttempt
use mydocker.Domain.Sandbox
use mydocker.Domain.Sandbox.{Sandbox}
use mydocker.Domain.Sample.{opened, demo, ready_demo, execution}
use mydocker.State.Advance
use mydocker.State.RollbackAdvance
use mydocker.State.Records
use mydocker.State.Records.{
  new_sandbox_record, ContainerAttemptRecord, new_container_attempt_record, Codec, OperationRecord,
  new_operation_record,
}
use mydocker.State.Receipts as Checks
use mydocker.State.Links
use mydocker.State.Validation
use mydocker.State.Same
use mydocker.State.Store
use mydocker.State.Transaction
use mydocker.State.Store.{View, MemoryData, new_memory_data}
use mydocker.State.Retention
use mydocker.State.Retention.{default_policy}
use mydocker.State.Progress
use mydocker.State.Graph
use mydocker.State.Whole
use mydocker.State.Memory
use mydocker.State.Memory.{
  puts_pair, puts_sandbox, Callback, MemoryStore, puts_operation, appends, returns, update, call,
}
use mydocker.State.Reachable.{Reachable, opens, updates}

abbrev pub codec : Codec
codec = record {
  token = Receipts.token;
  encode_receipt = Receipts.encode;
  decode_receipt = Receipts.decode;
  decodes = λ payload. payload == bytes "{}";
  oom_digest = λ owner evidence a b c. Receipts.digest;
  id_digest = λ id. Receipts.digest;
}

abbrev pub stopping : Vocabulary.State → Vocabulary.Stage → Vocabulary.Outcome → Text → Operation
stopping state stage result response = record {
  version = 1;
  id = bytes "op-1";
  type = Vocabulary.stop;
  target = record { kind = Vocabulary.sandbox; id = bytes "demo" };
  fingerprint = record { version = 1; sha256 = Receipts.digest };
  state = state;
  stage = stage;
  result = result;
  reason = Vocabulary.reason_none;
  response = response;
}

abbrev pub answered : Operation
answered =
    stopping Vocabulary.succeeded Vocabulary.complete Vocabulary.result_succeeded (bytes "{}")

abbrev pub active : Operation
active = stopping Vocabulary.running Vocabulary.teardown Vocabulary.result_pending []

abbrev pub ended : Event
ended = record {
  version = 2;
  sequence = 0;
  operation_id = bytes "op-1";
  type = Vocabulary.stop;
  target = answered.target;
  resources = answered.target ∷ [];
  stage = Vocabulary.complete;
  result = Vocabulary.result_succeeded;
  reason = Vocabulary.reason_none;
  occurred_at = some (pos 7);
  duration = none;
  generation = 1;
  observed_generation = 1;
  details = [];
}

abbrev pub empty_store : MemoryStore
empty_store = record { contents = new_memory_data; retention = default_policy }

abbrev pub puts : Operation → Callback
puts o = puts_operation (new_operation_record o) 0 (λ answer. returns (ok tt))

abbrev pub finishes : Callback
finishes =
    puts_operation (new_operation_record answered) 0
      (λ answer. appends ended (λ event. returns (ok tt)))

-- A store with an active operation, and one with a terminal operation and its event.
abbrev pub busy_store : MemoryStore
busy_store = (update codec empty_store (some (puts active)) false false).0

abbrev pub done_store : MemoryStore
done_store = (update codec empty_store (some finishes) false false).0

pub empty-Reachable : Reachable codec empty_store
unfolding Memory.new_memory_store Retention.validate_policy
empty-Reachable = opens default_policy empty_store refl

pub busy-Reachable : Reachable codec busy_store
busy-Reachable = updates empty_store (some (puts active)) false false empty-Reachable

pub done-Reachable : Reachable codec done_store
done-Reachable = updates empty_store (some finishes) false false empty-Reachable

unfoldable pub state_opened : Unit {0}
unfolding operation_opened opened Same.SandboxSpec-discrete Same.ContainerSpec-discrete
    Same.same_sandbox_input Sandbox.set_current_pair Receipts.ownership_opened lookup insert remove
    sort_by text_less Text-discrete is_control contains ℤ-discrete binding resolve
    Advance.next_revision Advance.operation_stage_rank Advance.validate_operation_advance
    Advance.terminal_operation_update_allowed RollbackAdvance.validate_rollback_advance
    RollbackAdvance.validate_steps_advance RollbackAdvance.validate_rollback_cause_advance
    Records.HostProfile-discrete Records.is_profile Checks.receipt_key
    Checks.validate_receipt_stage_prefix Checks.scan_acquisitions
    Checks.validate_acquisition_receipts Checks.validate_host_profile_record Checks.scan_releases
    Checks.validate_cleanup_releases Links.by_slot Links.link_records Links.validate_links
    Links.validate_order Links.validate_rollback_acquisition_order
    Links.validate_receipt_rollback_links Links.validate_receipts_advance
    Links.validate_receipt_advance Links.validate_releases_advance Links.validate_release_advance
    Validation.validate_schema Validation.validate_record_cause Validation.validate_deadline
    Validation.scan_rollback Validation.validate_baseline Validation.validate_success
    Validation.validate_adoption Validation.validate_operation_record
    Validation.validate_state_event Validation.validate_oom_baseline_advance
    Validation.validate_kill_escalation_deadline_advance
    Validation.validate_host_profile_operation_advance Same.same_progress Store.new_memory_data
    Store.ensure_open Store.ensure_writable Store.retired_operation_for Store.is_gap
    Store.events_after Store.scan_active Store.active_operation Retention.validate_policy
    Retention.last_event_from Retention.last_event_for_operation
    Retention.next_available_event_sequence Retention.missing_orders Retention.precedes
    Retention.assign_orders Retention.assign_terminal_sequences Retention.is_pinned
    Retention.retirable Retention.retire Retention.keep_suffix Retention.retire_excess
    Retention.apply_retention Retention.validate_retired Progress.other_active
    Progress.check_new_operation Progress.check_operation_change Progress.check_if_new
    Progress.check_if_known Progress.check_operation Progress.put_operation
    Progress.event_target_generation Progress.check_after Progress.check_event Progress.append_event
    Graph.validate_inventory_provenance Graph.inventory_for_target Graph.validate_adopted
    Graph.validate_operation_ownership Graph.validate_ownership_graph Whole.reason_text
    Whole.validate_stream Whole.validate_suffix Whole.validate_event_binding Whole.event_at
    Whole.validate_observation_reference Whole.validate_current_observation_generation
    Whole.validate_stored_sandbox Whole.validate_stored_pair Whole.validate_terminal
    Whole.scan_orders Whole.scan_retired Whole.validate_orders Whole.validate_current_reference
    Whole.validate_active_pair Whole.validate_store ActiveAttempt.validate_one_active_attempt
    ActiveAttempt.scan Memory.call Memory.commit_data Memory.publish Memory.update
state_opened = tt

pub done_event : is_ok (update codec empty_store (some finishes) false false).1 ≡ true
unfolding state_opened
done_event = refl

-- A store with a ready Sandbox and its current execution, by one transaction.
abbrev owner_named : Sandbox
owner_named =
    (Sandbox.set_current_pair ready_demo (bytes "container-demo") (bytes "attempt-demo")).0

abbrev runs_pair : Callback
runs_pair = puts_sandbox (new_sandbox_record demo) 0 (λ a.
    puts_sandbox (new_sandbox_record ready_demo) 1 (λ b.
      puts_pair (new_container_attempt_record execution) 0
        (λ c. puts_sandbox (new_sandbox_record owner_named) 2 (λ d. returns (ok tt)))))

abbrev pub owned_store : MemoryStore
owned_store = (update codec empty_store (some runs_pair) false false).0

pub owned-Reachable : Reachable codec owned_store
owned-Reachable = updates empty_store (some runs_pair) false false empty-Reachable

abbrev pub owned_pair : ContainerAttemptRecord
owned_pair = record (new_container_attempt_record execution) { revision = 1 }

pub owned_pair-there : lookup (bytes "container-demo") owned_store.contents.pairs ≡ some owned_pair
unfolding state_opened Transaction.put_sandbox Transaction.put_container_attempt
owned_pair-there = refl

-- A store with three events.
abbrev thrice : Callback
thrice =
    puts_operation (new_operation_record answered) 0
      (λ a. appends ended (λ b. appends ended (λ c. appends ended (λ d. returns (ok tt)))))

abbrev pub event_store : MemoryStore
event_store = (update codec empty_store (some thrice) false false).0

pub event-Reachable : Reachable codec event_store
event-Reachable = updates empty_store (some thrice) false false empty-Reachable

abbrev pub numbered : ℕ → Event
numbered n = record ended { sequence = n }

pub event_three : event_store.contents.events ≡ numbered 1 ∷ numbered 2 ∷ numbered 3 ∷ []
unfolding state_opened
event_three = refl
