-- ===== src/State/Advance.antt =====
-- internal/state/memory.go: the checks of a record against the one that it replaces.
pub mod Laws
pub mod Methods
use mydocker.Base.{
  ℕ, ◌+◌, ◌-◌, ◌^◌, Bool, true, false, not, ◌&&◌, ◌||◌, ◌==◌, Option, none, some, Result, ok, err,
  fail_if, ◌>>◌, is_ok, is_none, is_empty, ltb, leb, nat_beq, if◌then◌else◌, option_eq, Eq,
  discrete_eq,
}
use mydocker.Base.Int.{ℤ-discrete, ℤ, pos, negsuc, ltb_ℤ}
use mydocker.Text.{Text-discrete, text_eq}
use mydocker.State.Errors.{Error, Check, invalid_record, revision_conflict}
use mydocker.Operation.Vocabulary
use mydocker.Operation.Vocabulary.{
  Stage, State, is_pending_or_running, is_terminal, state_eq, stage_eq, result_eq, reason_eq,
  type_eq,
}
use mydocker.Operation.Target.{target_eq, fingerprint_eq}
use mydocker.Operation.Record.{Operation}
use mydocker.Domain.SandboxPhase.{sandbox_phase_eq, transition_sandbox}
use mydocker.Domain.AttemptPhase.{attempt_phase_eq, transition_attempt, stopped}
use mydocker.Domain.Sandbox.{Sandbox}
use mydocker.Domain.Container.{ContainerAttempt, identity_eq, streams_eq}
use mydocker.Domain.Outcome.{Outcome, EvidenceState-discrete, OutcomePresence-discrete}

-- reflect.DeepEqual of outcomes. Go compares the location of an instant as well; an instant is one number
-- here.
unfoldable pub Outcome-discrete : Discrete Outcome
unfolding Text-discrete ℤ-discrete EvidenceState-discrete OutcomePresence-discrete
Outcome-discrete =
    hlevel (Text-discrete, ℤ-discrete, EvidenceState-discrete, OutcomePresence-discrete)

instance abbrev pub outcome_eq : Eq Outcome
outcome_eq = discrete_eq Outcome-discrete

-- A Revision is a uint64.
abbrev pub max_revision : ℕ
max_revision = 2 ^ 64 - 1

-- Create, or compare and swap.
unfoldable pub next_revision : ℕ → ℕ → Bool → Result Error ℕ
next_revision expected current false =
    if nat_beq expected 0 then ok 1 else err (revision_conflict "missing record")
next_revision expected current true =
    if nat_beq expected 0 || not (nat_beq expected current)
    then err (revision_conflict "expected revision")
    else if nat_beq current max_revision
    then err (revision_conflict "revision overflow")
    else ok (current + 1)

unfoldable pub operation_stage_rank : Stage → ℤ
operation_stage_rank Vocabulary.validate = pos 0
operation_stage_rank Vocabulary.persist_intent = pos 1
operation_stage_rank Vocabulary.check_preconditions = pos 2
operation_stage_rank Vocabulary.host_preflight = pos 3
operation_stage_rank Vocabulary.prepare_cgroup = pos 4
operation_stage_rank Vocabulary.prepare_start_gate = pos 5
operation_stage_rank Vocabulary.prepare_streams = pos 6
operation_stage_rank Vocabulary.create_process = pos 7
operation_stage_rank Vocabulary.prepare_namespaces = pos 8
operation_stage_rank Vocabulary.join_namespaces = pos 9
operation_stage_rank Vocabulary.prepare_rootfs = pos 10
operation_stage_rank Vocabulary.attach_cgroup = pos 11
operation_stage_rank Vocabulary.release_start_gate = pos 12
operation_stage_rank Vocabulary.signal_process = pos 13
operation_stage_rank Vocabulary.observe_process = pos 14
operation_stage_rank Vocabulary.teardown = pos 15
operation_stage_rank Vocabulary.transition = pos 16
operation_stage_rank Vocabulary.persist_state = pos 17
operation_stage_rank Vocabulary.rollback = pos 18
operation_stage_rank Vocabulary.persist_result = pos 19
operation_stage_rank Vocabulary.complete = pos 20
operation_stage_rank (Vocabulary.other_stage _) = negsuc 0

-- The response may be written once, with the intent.
abbrev pub initializes_response : Operation → Operation → Bool
initializes_response current next =
    current.state == Vocabulary.pending
    && current.stage == Vocabulary.validate
    && is_empty current.response
    && next.state == Vocabulary.running
    && next.stage == Vocabulary.persist_intent
    && not (is_empty next.response)

unfoldable pub validate_operation_advance : Operation → Operation → Check
unfolding is_terminal is_pending_or_running operation_stage_rank
validate_operation_advance current next = if is_terminal current.state then ok tt else do
  fail_if
      (is_pending_or_running current.state
        && is_pending_or_running next.state
        && not (current.response == next.response)
        && not (initializes_response current next))
      (invalid_record "active operation response")
  fail_if (current.state == Vocabulary.running && next.state == Vocabulary.pending)
      (invalid_record "operation state")
  fail_if
      (current.state == next.state
        && is_pending_or_running next.state
        && ltb_ℤ (operation_stage_rank next.stage) (operation_stage_rank current.stage))
      (invalid_record "operation stage")

abbrev pub same_operation_binding : Operation → Operation → Bool
same_operation_binding left right =
    left.id == right.id
    && left.type == right.type
    && left.target == right.target
    && left.fingerprint == right.fingerprint

-- The fields of the result but the response.
abbrev pub same_result : Operation → Operation → Bool
same_result left right =
    nat_beq left.version right.version
    && left.state == right.state
    && left.stage == right.stage
    && left.result == right.result
    && left.reason == right.reason

abbrev pub same_operation : Operation → Operation → Bool
same_operation left right =
    same_operation_binding left right && same_result left right && left.response == right.response

unfoldable pub terminal_operation_update_allowed : Operation → Operation → Bool
terminal_operation_update_allowed current next =
    same_operation current next
    || (is_empty current.response
        && not (is_empty next.response)
        && same_operation_binding current next
        && same_result current next)

unfoldable pub validate_sandbox_advance : Sandbox → Sandbox → Check
validate_sandbox_advance current next = do
  fail_if (ltb next.status.observed_generation current.status.observed_generation)
      (invalid_record "observed generation")
  fail_if
      (ltb next.status.last_observation.event_sequence
        current.status.last_observation.event_sequence)
      (invalid_record "last observation")
  if current.status.phase == next.status.phase
      then ok tt
      else fail_if (not (is_ok (transition_sandbox current.status.phase next.status.phase).1))
          (invalid_record "phase transition")

unfoldable pub validate_container_attempt_advance : ContainerAttempt → ContainerAttempt → Check
validate_container_attempt_advance current next = do
  fail_if
      (ltb next.container.status.observed_generation current.container.status.observed_generation)
      (invalid_record "observed generation")
  fail_if
      (ltb next.attempt.last_observation.event_sequence
        current.attempt.last_observation.event_sequence)
      (invalid_record "last observation")
  fail_if
      (not (is_none current.attempt.process_identity)
        && not (current.attempt.process_identity == next.attempt.process_identity))
      (invalid_record "process identity")
  fail_if
      (not (current.attempt.phase == next.attempt.phase)
        && not (is_ok (transition_attempt current.attempt.phase next.attempt.phase).1))
      (invalid_record "phase transition")
  fail_if
      (current.attempt.phase == stopped
        && next.attempt.phase == stopped
        && (not (current.attempt.outcome == next.attempt.outcome)
            || not (current.attempt.process_identity == next.attempt.process_identity)
            || not (current.attempt.streams == next.attempt.streams)))
      (invalid_record "terminal execution facts")
