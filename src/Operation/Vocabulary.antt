-- ===== src/Operation/Vocabulary.antt =====
-- internal/operation/model.go, the bounded vocabularies. Each is a string in Go: the last constructor
-- stands for the spellings outside the vocabulary.
use mydocker.Base.{Bool, true, false, Eq, discrete_eq}
use mydocker.Text.{Text, Text-discrete}

-- The lifecycle verb of an operation: Type in Go.
pub data Verb : Type 0 where
  create start state kill stop delete : Verb
  other_type : Text → Verb

unfoldable pub Verb-discrete : Discrete Verb
unfolding Text-discrete
Verb-discrete = hlevel Text-discrete

instance abbrev pub type_eq : Eq Verb
type_eq = discrete_eq Verb-discrete

unfoldable pub is_type : Verb → Bool
is_type (other_type _) = false
is_type _ = true

-- The kind of resource that an operation addresses.
pub data TargetKind : Type 0 where
  sandbox container attempt : TargetKind
  other_kind : Text → TargetKind

unfoldable pub TargetKind-discrete : Discrete TargetKind
unfolding Text-discrete
TargetKind-discrete = hlevel Text-discrete

instance abbrev pub kind_eq : Eq TargetKind
kind_eq = discrete_eq TargetKind-discrete

unfoldable pub is_kind : TargetKind → Bool
is_kind (other_kind _) = false
is_kind _ = true

-- The durable state of an operation.
pub data State : Type 0 where
  pending running succeeded failed : State
  other_state : Text → State

unfoldable pub State-discrete : Discrete State
unfolding Text-discrete
State-discrete = hlevel Text-discrete

instance abbrev pub state_eq : Eq State
state_eq = discrete_eq State-discrete

unfoldable pub is_state : State → Bool
is_state (other_state _) = false
is_state _ = true

-- A checkpoint of an operation.
pub data Stage : Type 0 where
  validate persist_intent check_preconditions host_preflight prepare_cgroup prepare_start_gate :
      Stage
  prepare_streams create_process prepare_namespaces join_namespaces prepare_rootfs attach_cgroup :
      Stage
  release_start_gate signal_process observe_process teardown transition persist_state rollback :
      Stage
  persist_result complete : Stage
  other_stage : Text → Stage

unfoldable pub Stage-discrete : Discrete Stage
unfolding Text-discrete
Stage-discrete = hlevel Text-discrete

instance abbrev pub stage_eq : Eq Stage
stage_eq = discrete_eq Stage-discrete

unfoldable pub is_stage : Stage → Bool
is_stage (other_stage _) = false
is_stage _ = true

-- The outcome of an operation or of one stage: Result in Go, a name that the sum of values and
-- errors has here.
pub data Outcome : Type 0 where
  result_pending result_succeeded result_failed result_noop : Outcome
  other_result : Text → Outcome

unfoldable pub Outcome-discrete : Discrete Outcome
unfolding Text-discrete
Outcome-discrete = hlevel Text-discrete

instance abbrev pub result_eq : Eq Outcome
result_eq = discrete_eq Outcome-discrete

unfoldable pub is_result : Outcome → Bool
is_result (other_result _) = false
is_result _ = true

-- The class of a failure.
pub data ReasonClass : Type 0 where
  reason_none invalid_request conflict not_found precondition internal cleanup : ReasonClass
  other_reason : Text → ReasonClass

unfoldable pub ReasonClass-discrete : Discrete ReasonClass
unfolding Text-discrete
ReasonClass-discrete = hlevel Text-discrete

instance abbrev pub reason_eq : Eq ReasonClass
reason_eq = discrete_eq ReasonClass-discrete

unfoldable pub is_reason : ReasonClass → Bool
is_reason (other_reason _) = false
is_reason _ = true

-- Reconciliation may continue the operation.
unfoldable pub is_pending_or_running : State → Bool
is_pending_or_running pending = true
is_pending_or_running running = true
is_pending_or_running _ = false

-- A retry replays the stored result.
unfoldable pub is_terminal : State → Bool
is_terminal succeeded = true
is_terminal failed = true
is_terminal _ = false
