-- ===== src/State/RollbackAdvance.antt =====
-- internal/state/memory.go: the persisted progress of a rollback may only grow. Metadata that is nil and
-- metadata that is empty are one text here.
pub mod Laws
use mydocker.Base.{
  Bool, true, false, not, ◌&&◌, ◌==◌, List, [], ◌∷◌, Option, none, some, Eq, discrete_eq, ok,
  fail_if, ◌>>◌, any, length, ltb, nat_beq, ℕ_discrete,
}
use mydocker.Text.{Text-discrete, text_eq}
use mydocker.Operation.Vocabulary.{ReasonClass-discrete}
use mydocker.Rollback.Diagnostic.{Cause}
use mydocker.Rollback.Record.{Descriptor, Record}
use mydocker.State.Errors.{Check, invalid_record}

unfoldable pub Descriptor-discrete : Discrete Descriptor
unfolding Text-discrete ℕ_discrete
Descriptor-discrete = hlevel (Text-discrete, ℕ_discrete)

instance abbrev pub descriptor_eq : Eq Descriptor
descriptor_eq = discrete_eq Descriptor-discrete

unfoldable pub Cause-discrete : Discrete Cause
unfolding Text-discrete ReasonClass-discrete
Cause-discrete = hlevel (Text-discrete, ReasonClass-discrete)

instance abbrev pub cause_eq : Eq Cause
cause_eq = discrete_eq Cause-discrete

unfoldable pub validate_step_advance : Record → Record → Check
validate_step_advance current next = do
  fail_if (not (current.descriptor == next.descriptor)) (invalid_record "rollback descriptor")
  fail_if (current.succeeded && not next.succeeded) (invalid_record "rollback success")
  fail_if (current.started && not next.started) (invalid_record "rollback-started marker")
  fail_if (ltb next.attempts current.attempts) (invalid_record "rollback failure attempts")
  fail_if (nat_beq next.attempts current.attempts && not (next.last_error == current.last_error))
      (invalid_record "rollback failure diagnostic")

-- The loop over the current records; the next ones are no fewer.
unfoldable pub validate_steps_advance : List Record → List Record → Check
unfolding validate_step_advance
validate_steps_advance [] next = ok tt
validate_steps_advance (c ∷ current) [] = ok tt
validate_steps_advance (c ∷ current) (n ∷ next) = do
  validate_step_advance c n
  validate_steps_advance current next

unfoldable pub validate_rollback_advance : List Record → List Record → Check
unfolding validate_steps_advance
validate_rollback_advance current next = do
  fail_if (ltb (length next) (length current)) (invalid_record "rollback descriptor history")
  fail_if (ltb (length current) (length next) && any (λ (r : Record). r.started) current)
      (invalid_record "rollback descriptor")
  validate_steps_advance current next

unfoldable pub validate_rollback_cause_advance : Option Cause → Option Cause → Check
validate_rollback_cause_advance none next = ok tt
validate_rollback_cause_advance (some current) none =
    fail_if true (invalid_record "rollback primary cause")
validate_rollback_cause_advance (some current) (some next) =
    fail_if (not (current == next)) (invalid_record "rollback primary cause")
