-- ===== src/Domain/ActiveAttempt.antt =====
-- internal/domain/model.go, ValidateOneActiveAttempt. The maps of names already seen are lists; the
-- Container that the map of active Attempts remembers is read by the message only.
pub mod Laws
use mydocker.Base.{
  ℕ, ◌+◌, Bool, true, false, ◌&&◌, List, [], ◌∷◌, ok, err, fail_if, ◌>>◌, contains, if◌then◌else◌,
}
use mydocker.Text.{Text, text_eq}
use mydocker.Domain.Errors.{ErrorCode, Field, Check, new_error, wrap_error}
use mydocker.Domain.AttemptPhase.{is_active_attempt}
use mydocker.Domain.Container.{ContainerAttempt}
use mydocker.Domain.ContainerAttempt.{validate}

abbrev pub is_active : ContainerAttempt → Bool
is_active p = is_active_attempt p.attempt.phase

-- The loop over the pairs, with the index of the next one.
unfoldable pub scan : ℕ → List Text → List Text → List Text → List ContainerAttempt → Check
scan index containers attempts active [] = ok tt
scan index containers attempts active (p ∷ pairs) = elim (validate p) [
  | err e ↦ err (wrap_error ErrorCode.invalid_argument (Field.indexed "pairs" index) e)
  | ok _ ↦ do
    fail_if (contains p.container.id containers)
        (new_error ErrorCode.already_exists (Field.named "container_id"))
    fail_if (contains p.attempt.id attempts)
        (new_error ErrorCode.already_exists (Field.named "attempt_id"))
    fail_if (is_active p && contains p.container.sandbox_id active)
        (new_error ErrorCode.failed_precondition (Field.named "sandbox.active_attempt"))
    scan (index + 1) (p.container.id ∷ containers) (p.attempt.id ∷ attempts)
        (if is_active p then p.container.sandbox_id ∷ active else active) pairs
]

unfoldable pub validate_one_active_attempt : List ContainerAttempt → Check
unfolding scan
validate_one_active_attempt pairs = scan 0 [] [] [] pairs
