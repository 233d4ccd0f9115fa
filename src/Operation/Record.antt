-- ===== src/Operation/Record.antt =====
-- internal/operation/model.go, the durable operation record. Whether bytes are one unambiguous JSON value
-- is strictjson.Decode's answer, the parameter `decodes`.
pub mod Laws
use mydocker.Base.{
  ℕ, Bool, true, false, not, ◌&&◌, ◌||◌, ◌==◌, String, ok, err, fail_if, ◌>>◌, is_empty, nat_beq,
  if◌then◌else◌,
}
use mydocker.Text.{Text}
use mydocker.Operation.Errors.{Check, malformed}
use mydocker.Operation.Vocabulary.{
  Verb, is_type, State, pending, running, succeeded, failed, is_state, state_eq,
  is_pending_or_running, is_terminal, Stage, validate, complete, is_stage, stage_eq, Outcome,
  result_pending, result_succeeded, result_failed, result_noop, is_result, result_eq, ReasonClass,
  reason_none, is_reason, reason_eq,
}
use mydocker.Operation.Target.{
  OperationId, validate_operation_id, Target, validate_target, validate_type_target,
  RequestFingerprint, validate_fingerprint, Binding,
}

pub record Operation : Type 0 where
  pub version : ℕ
  pub id : OperationId
  pub type : Verb
  pub target : Target
  pub fingerprint : RequestFingerprint
  pub state : State
  pub stage : Stage
  pub result : Outcome
  pub reason : ReasonClass
  pub response : Text

abbrev pub operation_schema_version : ℕ
operation_schema_version = 1

unfoldable pub binding : Operation → Binding
binding o = record { id = o.id; type = o.type; target = o.target; fingerprint = o.fingerprint }

-- The checks of each field by itself.
unfoldable pub validate_fields : Operation → Check
validate_fields o = do
  fail_if (not (nat_beq o.version operation_schema_version)) (malformed "operation schema version")
  validate_operation_id o.id
  fail_if (not (is_type o.type)) (malformed "operation type")
  validate_target o.target
  validate_type_target o.type o.target.kind
  validate_fingerprint o.fingerprint
  fail_if (not (is_state o.state)) (malformed "operation state")
  fail_if (not (is_stage o.stage)) (malformed "operation stage")
  fail_if (not (is_result o.result)) (malformed "operation result")
  fail_if (not (is_reason o.reason)) (malformed "operation reason")

-- The checks of state, result and reason against one another.
unfoldable pub validate_result : Operation → Check
unfolding is_pending_or_running
validate_result o = do
  fail_if (is_pending_or_running o.state && not (o.result == result_pending))
      (malformed "active operation")
  fail_if
      (o.state == succeeded && not (o.result == result_succeeded) && not (o.result == result_noop))
      (malformed "succeeded operation")
  fail_if (o.state == failed && not (o.result == result_failed)) (malformed "failed operation")
  fail_if (o.result == result_failed && o.reason == reason_none) (malformed "failed operation")
  fail_if (not (o.result == result_failed) && not (o.reason == reason_none))
      (malformed "non-failed operation")

-- The checks of the stage against the state.
unfoldable pub validate_stage : Operation → Check
unfolding is_terminal
validate_stage o = do
  fail_if (o.state == pending && not (o.stage == validate)) (malformed "pending operation")
  fail_if (o.state == running && (o.stage == validate || o.stage == complete))
      (malformed "running operation")
  fail_if (is_terminal o.state && not (o.stage == complete)) (malformed "terminal operation")

module _ (decodes : Text → Bool) where
  unfoldable pub validate_opaque_json : String → Text → Check
  validate_opaque_json field payload =
      if is_empty payload then ok tt else fail_if (not (decodes payload)) (malformed field)

  -- Operation.Validate.
  unfoldable pub validate_operation : Operation → Check
  unfolding validate_fields validate_result validate_stage
  validate_operation o = do
    validate_fields o
    validate_result o
    validate_opaque_json "operation response" o.response
    validate_stage o
