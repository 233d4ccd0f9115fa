-- ===== src/Operation/Event.antt =====
-- internal/operation/model.go, the events of operations. An instant is zero, or is not; a duration is a
-- `ℤ` of nanoseconds.
pub mod Laws
use mydocker.Base.{
  is_none, ℕ, Bool, true, false, not, ◌&&◌, ◌||◌, ◌==◌, List, [], ◌∷◌, Option, none, some, ok, err,
  fail_if, ◌>>◌, ◌>>=◌, is_empty, any, contains, nat_beq, ltb, if◌then◌else◌,
}
use mydocker.Base.Int.{ℤ, pos, ltb_ℤ}
use mydocker.Text.{Text}
use mydocker.Operation.Errors.{Check, malformed, within, Error}
use mydocker.Operation.Vocabulary.{
  Verb, delete, is_type, type_eq, TargetKind, sandbox, container, attempt, kind_eq, Stage, is_stage,
  Outcome, result_failed, is_result, result_eq, ReasonClass, reason_none, is_reason, reason_eq,
}
use mydocker.Operation.Target.{
  OperationId, validate_operation_id, Target, target_eq, validate_target, validate_type_target,
  validate_sequence, next_sequence,
}
use mydocker.Operation.Record.{validate_opaque_json}

abbrev pub event_schema_version : ℕ
event_schema_version = 2

pub record Event : Type 0 where
  pub version : ℕ
  pub sequence : ℕ
  pub operation_id : OperationId
  pub type : Verb
  pub target : Target
  pub resources : List Target
  pub stage : Stage
  pub result : Outcome
  pub reason : ReasonClass
  pub occurred_at : Option ℤ
  pub duration : Option ℤ
  pub generation : ℕ
  pub observed_generation : ℕ
  pub details : Text

-- The loop over the resources, with those already seen and whether the primary is one of them.
unfoldable pub scan_resources : Target → List Target → Bool → List Target → Check
scan_resources primary seen found [] = fail_if (not found) (malformed "event resources")
scan_resources primary seen found (r ∷ resources) = elim (validate_target r) [
  | err e ↦ err (within "event resource" e)
  | ok _ ↦ do
    fail_if (contains r seen) (malformed "event resource")
    scan_resources primary (r ∷ seen) (found || r == primary) resources
]

abbrev pub has_kind : TargetKind → List Target → Bool
has_kind kind = any (λ (r : Target). r.kind == kind)

-- An execution event names its Sandbox, its Container and its Attempt, in this order of the checks.
abbrev pub require_kinds : List Target → Check
require_kinds resources = do
  fail_if (not (has_kind sandbox resources)) (malformed "execution event resources")
  fail_if (not (has_kind container resources)) (malformed "execution event resources")
  fail_if (not (has_kind attempt resources)) (malformed "execution event resources")

unfoldable pub validate_event_resources : Target → List Target → Bool → Check
unfolding scan_resources
validate_event_resources primary resources allow_absent_delete = do
  fail_if (is_empty resources) (malformed "event resources")
  scan_resources primary [] false resources
  if (primary.kind == container || primary.kind == attempt) && not allow_absent_delete
      then require_kinds resources
      else ok tt

abbrev pub negative_duration : Option ℤ → Bool
negative_duration none = false
negative_duration (some d) = ltb_ℤ d (pos 0)

abbrev pub is_absent_delete : Event → Bool
is_absent_delete e = e.type == delete && nat_beq e.generation 0 && nat_beq e.observed_generation 0

-- The checks of Event.Validate up to the resources.
unfoldable pub validate_identity : Event → Check
validate_identity e = do
  fail_if (not (nat_beq e.version event_schema_version)) (malformed "event schema version")
  validate_sequence e.sequence
  validate_operation_id e.operation_id
  fail_if (not (is_type e.type)) (malformed "event operation type")
  validate_target e.target
  validate_type_target e.type e.target.kind
  validate_event_resources e.target e.resources (is_absent_delete e)

-- Those behind the resources, up to the details. The zero time is `none`.
unfoldable pub validate_facts : Event → Check
validate_facts e = do
  fail_if (not (is_stage e.stage)) (malformed "event stage")
  fail_if (not (is_result e.result)) (malformed "event result")
  fail_if (not (is_reason e.reason)) (malformed "event reason")
  fail_if (e.result == result_failed && e.reason == reason_none) (malformed "failed event")
  fail_if (not (e.result == result_failed) && not (e.reason == reason_none))
      (malformed "non-failed event")
  fail_if (is_none e.occurred_at) (malformed "event wall-clock timestamp")
  fail_if (negative_duration e.duration) (malformed "event duration")
  fail_if (ltb e.generation e.observed_generation) (malformed "event observed generation")

module _ (decodes : Text → Bool) where
  -- Event.Validate.
  unfoldable pub validate_event : Event → Check
  unfolding validate_identity validate_facts
  validate_event e = do
    validate_identity e
    validate_facts e
    validate_opaque_json decodes "event details" e.details

  unfoldable pub validate_after : Event → Event → Check
  validate_after e previous = elim (validate_event previous) [
    | err x ↦ err (within "previous event" x)
    | ok _ ↦ do
      validate_event e
      next ← next_sequence previous.sequence
      fail_if (not (nat_beq e.sequence next)) (malformed "event sequence")
  ]
