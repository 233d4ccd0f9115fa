-- ===== src/Domain/Conditions.antt =====
-- internal/domain/model.go, the conditions of a resource and its last observation.
pub mod Laws
use mydocker.Base.{
  ℕ_discrete, ℕ, zero, suc, ◌+◌, Bool, true, false, not, ◌&&◌, ◌||◌, ◌==◌, ◌≡◌, List, [], ◌∷◌, ◌++◌,
  Option, none, some, Eq, discrete_eq, Result, ok, err, fail_if, ◌>>◌, ◌>>=◌, is_empty, any, keep,
  contains, if◌then◌else◌, nat_beq,
}
use mydocker.Text.{Text, Text-discrete, text_eq, bytes, contains_nul}
use mydocker.Text.Trim.{is_blank}
use mydocker.Domain.Errors.{Error, ErrorCode, Field, Check, invalid, new_error, wrap_error}

pub record Condition : Type 0 where
  pub type : Text
  pub reason : Text
  pub message : Text

unfoldable pub Condition-discrete : Discrete Condition
unfolding Text-discrete
Condition-discrete = hlevel Text-discrete

instance abbrev pub condition_eq : Eq Condition
condition_eq = discrete_eq Condition-discrete

abbrev pub condition_failure : Text
condition_failure = bytes "Failure"

abbrev pub condition_cleanup_pending : Text
condition_cleanup_pending = bytes "CleanupPending"

abbrev pub condition_outcome_unknown : Text
condition_outcome_unknown = bytes "OutcomeUnknown"

abbrev pub condition_process_identity_unknown : Text
condition_process_identity_unknown = bytes "ProcessIdentityUnknown"

unfoldable pub validate_condition : Condition → Check
validate_condition c = do
  fail_if (is_blank c.type || is_blank c.reason) (invalid "condition")
  fail_if (contains_nul c.type || contains_nul c.reason || contains_nul c.message)
      (invalid "condition")

-- The loop over the conditions, with the index of the next one and the types already seen.
unfoldable pub validate_each : ℕ → List Text → List Condition → Check
validate_each index seen [] = ok tt
validate_each index seen (c ∷ cs) = elim (validate_condition c) [
  | err e ↦ err (wrap_error ErrorCode.invalid_argument (Field.indexed "conditions" index) e)
  | ok _ ↦ do
    fail_if (contains c.type seen)
        (new_error ErrorCode.invalid_argument (Field.indexed "conditions" index))
    validate_each (index + 1) (c.type ∷ seen) cs
]

unfoldable pub validate_conditions : List Condition → Check
unfolding validate_each
validate_conditions cs = validate_each 0 [] cs

unfoldable pub has_condition : List Condition → Text → Bool
has_condition [] type = false
has_condition (c ∷ cs) type = c.type == type || has_condition cs type

-- The first condition of the type is replaced in place, or the condition is appended.
unfoldable pub upsert_condition : List Condition → Condition → List Condition
upsert_condition [] c = c ∷ []
upsert_condition (d ∷ ds) c = if d.type == c.type then c ∷ ds else d ∷ upsert_condition ds c

unfoldable pub without_condition : List Condition → Text → Result Error (List Condition)
without_condition cs type = do
  fail_if (is_blank type || contains_nul type) (invalid "condition.type")
  ok (keep (λ (c : Condition). not (c.type == type)) cs)

unfoldable pub conditions_equal : List Condition → List Condition → Bool
conditions_equal [] [] = true
conditions_equal (c ∷ cs) (d ∷ ds) = c == d && conditions_equal cs ds
conditions_equal _ _ = false

-- The latest durable event that a resource reports; the sequence is a uint64.
pub record LifecycleObservation : Type 0 where
  pub operation_id : Text
  pub event_sequence : ℕ
  pub reason : Text

unfoldable pub LifecycleObservation-discrete : Discrete LifecycleObservation
unfolding Text-discrete
LifecycleObservation-discrete = hlevel (Text-discrete, ℕ_discrete)

instance abbrev pub observation_eq : Eq LifecycleObservation
observation_eq = discrete_eq LifecycleObservation-discrete

abbrev pub no_observation : LifecycleObservation
no_observation = record { operation_id = []; event_sequence = 0; reason = [] }

unfoldable pub validate_observation : LifecycleObservation → Check
validate_observation o =
    if is_empty o.operation_id && nat_beq o.event_sequence 0 && is_empty o.reason then ok tt else do
      fail_if (is_blank o.operation_id || nat_beq o.event_sequence 0 || is_blank o.reason)
          (invalid "lifecycle_observation")
      fail_if (contains_nul o.operation_id || contains_nul o.reason)
          (invalid "lifecycle_observation")
