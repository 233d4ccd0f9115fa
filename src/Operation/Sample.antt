-- ===== src/Operation/Sample.antt =====
-- What a run of the operations opens.
use mydocker.Base.{contains}
use mydocker.Text.{Text-discrete, is_control}
use mydocker.Text.Trim.{trim_space}
use mydocker.Operation.Vocabulary
use mydocker.Operation.Target
use mydocker.Operation.Record
use mydocker.Operation.Event

unfoldable pub operation_opened : Unit {0}
unfolding Target.validate_binding Target.validate_identifier Target.validate_target
    Target.validate_type_target Target.applies Target.validate_fingerprint Target.validate_sequence
    Target.next_sequence Target.compare_binding Record.validate_operation Record.validate_fields
    Record.validate_result Record.validate_stage Record.validate_opaque_json Event.validate_after
    Event.validate_event Event.validate_identity Event.validate_facts Event.validate_event_resources
    Event.scan_resources Vocabulary.is_type Vocabulary.is_kind Vocabulary.is_state
    Vocabulary.is_stage Vocabulary.is_result Vocabulary.is_reason Vocabulary.is_terminal
    Vocabulary.is_pending_or_running Record.binding Text-discrete trim_space is_control contains
    Vocabulary.TargetKind-discrete Target.Target-discrete Vocabulary.Verb-discrete
    Vocabulary.Outcome-discrete Vocabulary.State-discrete Vocabulary.ReasonClass-discrete
    Vocabulary.Stage-discrete Target.RequestFingerprint-discrete
operation_opened = tt
