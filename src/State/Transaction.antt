-- ===== src/State/Transaction.antt =====
-- internal/state/memory.go: the writes of a transaction. A method answers the view that it leaves beside its
-- value or error.
use mydocker.Base.{
  ℕ, not, ◌&&◌, ◌||◌, ◌==◌, List, [], ◌∷◌, Option, none, some, Result, ok, err, fail_if, ◌>>◌,
  ◌>>=◌, is_empty, is_some, any, nat_beq, Dict, lookup, insert, remove, if◌then◌else◌,
}
use mydocker.Text.{Text, text_eq}
use mydocker.Domain.SandboxPhase
use mydocker.Domain.SandboxPhase.{sandbox_phase_eq}
use mydocker.Domain.AttemptPhase
use mydocker.Domain.AttemptPhase.{attempt_phase_eq}
use mydocker.Domain.Container.{ContainerAttempt}
use mydocker.Domain.ActiveAttempt.{validate_one_active_attempt}
use mydocker.Operation.Vocabulary.{stage_eq, result_eq, reason_eq, type_eq}
use mydocker.Operation.Target.{target_eq}
use mydocker.State.Errors.{Error, Check, invalid_record, not_found, revision_conflict}
use mydocker.State.Advance.{
  next_revision, validate_sandbox_advance, validate_container_attempt_advance,
}
use mydocker.State.Records.{Codec, SandboxRecord, ContainerAttemptRecord, profile_eq}
use mydocker.State.Receipts.{unless_ok}
use mydocker.State.Links.{validate_host_resource_advance}
use mydocker.State.Validation.{validate_sandbox_record, validate_container_attempt_record}
use mydocker.State.Same.{same_sandbox_input, same_container_attempt_identity_and_spec}
use mydocker.State.Store.{MemoryData, View, ensure_writable, found}

-- The new view where the checks answer a value, and otherwise the view as it was.
abbrev pub commit {ℓ κ} :
    {A : Type ℓ} {B : Type κ} → View → Result Error A → (A → MemoryData × B) → View × Result Error B
commit v (err e) change = (v, err e)
commit v (ok a) change = (record v { data_of = (change a).0 }, ok (change a).1)

abbrev pub revision_or_zero {ℓ} : {A : Type ℓ} → (A → ℕ) → Option A → ℕ
revision_or_zero revision none = 0
revision_or_zero revision (some a) = revision a

module _ (codec : Codec) where
  -- What the current record, where there is one, says of the next.
  unfoldable pub check_sandbox_change : Option SandboxRecord → SandboxRecord → Check
  unfolding validate_sandbox_advance validate_host_resource_advance same_sandbox_input
  check_sandbox_change none next = ok tt
  check_sandbox_change (some current) next = do
    fail_if (not (same_sandbox_input current.sandbox next.sandbox)) (invalid_record "create input")
    validate_sandbox_advance current.sandbox next.sandbox
    validate_host_resource_advance current.host_resources next.host_resources

  -- PutSandbox up to its write: the revision that it assigns.
  unfoldable pub check_sandbox : View → SandboxRecord → ℕ → Result Error ℕ
  unfolding ensure_writable validate_sandbox_record next_revision check_sandbox_change
  check_sandbox v r expected = do
    ensure_writable v
    validate_sandbox_record codec r
    let current = lookup r.sandbox.id v.data_of.sandboxes
    next ←
        next_revision expected (revision_or_zero (λ (x : SandboxRecord). x.revision) current)
          (is_some current)
    check_sandbox_change current r
    ok next

  unfoldable pub put_sandbox : View → SandboxRecord → ℕ → View × Result Error SandboxRecord
  unfolding check_sandbox
  put_sandbox v r expected = commit v (check_sandbox v r expected) (λ next.
      let stored : SandboxRecord = record r { revision = next } in
      (record (v.data_of) { sandboxes = insert r.sandbox.id stored v.data_of.sandboxes }, stored))

  unfoldable pub check_delete_sandbox : View → Text → ℕ → Check
  unfolding ensure_writable
  check_delete_sandbox v id expected = do
    ensure_writable v
    current ← found (lookup id v.data_of.sandboxes) (not_found "sandbox")
    fail_if (nat_beq expected 0 || not (nat_beq current.revision expected))
        (revision_conflict "expected revision")
    fail_if
        (not (current.sandbox.status.phase == SandboxPhase.stopped)
          && not (current.sandbox.status.phase == SandboxPhase.absent))
        (invalid_record "sandbox phase")
    fail_if (not (is_empty current.host_resources)) (invalid_record "sandbox host resources")
    fail_if
        (any (λ (x : Text × ContainerAttemptRecord). x.1.pair.container.sandbox_id == id)
          v.data_of.pairs)
        (invalid_record "sandbox container")

  unfoldable pub delete_sandbox : View → Text → ℕ → View × Check
  unfolding check_delete_sandbox
  delete_sandbox v id expected =
      commit v (check_delete_sandbox v id expected)
        (λ _. (record (v.data_of) { sandboxes = remove id v.data_of.sandboxes }, tt))

  -- The loop over the other pairs; their values are gathered, and the candidate comes last.
  unfoldable pub other_pairs :
      ContainerAttempt → Dict Text ContainerAttemptRecord → Result Error (List ContainerAttempt)
  other_pairs candidate [] = ok (candidate ∷ [])
  other_pairs candidate ((id, r) ∷ m) =
      if id == candidate.container.id then other_pairs candidate m else do
        fail_if (r.pair.attempt.id == candidate.attempt.id) (invalid_record "attempt")
        rest ← other_pairs candidate m
        ok (r.pair ∷ rest)

  unfoldable pub validate_container_attempt_set : View → ContainerAttempt → Check
  unfolding other_pairs
  validate_container_attempt_set v candidate = do
    pairs ← other_pairs candidate v.data_of.pairs
    unless_ok (validate_one_active_attempt pairs) (invalid_record "container attempt set")

  unfoldable pub check_pair_change : Option ContainerAttemptRecord → ContainerAttemptRecord → Check
  unfolding validate_container_attempt_advance validate_host_resource_advance
      same_container_attempt_identity_and_spec
  check_pair_change none next = ok tt
  check_pair_change (some current) next = do
    fail_if (not (same_container_attempt_identity_and_spec current.pair next.pair))
        (invalid_record "identity or spec")
    validate_container_attempt_advance current.pair next.pair
    validate_host_resource_advance current.host_resources next.host_resources

  unfoldable pub check_container_attempt : View → ContainerAttemptRecord → ℕ → Result Error ℕ
  unfolding ensure_writable validate_container_attempt_record next_revision check_pair_change
      validate_container_attempt_set
  check_container_attempt v r expected = do
    ensure_writable v
    validate_container_attempt_record codec r
    let current = lookup r.pair.container.id v.data_of.pairs
    next ←
        next_revision expected
          (revision_or_zero (λ (x : ContainerAttemptRecord). x.revision) current) (is_some current)
    check_pair_change current r
    validate_container_attempt_set v r.pair
    ok next

  unfoldable pub put_container_attempt :
      View → ContainerAttemptRecord → ℕ → View × Result Error ContainerAttemptRecord
  unfolding check_container_attempt
  put_container_attempt v r expected = commit v (check_container_attempt v r expected) (λ next.
      let stored : ContainerAttemptRecord = record r { revision = next } in
      (record (v.data_of) { pairs = insert r.pair.container.id stored v.data_of.pairs }, stored))

  unfoldable pub check_delete_container_attempt : View → Text → ℕ → Check
  unfolding ensure_writable
  check_delete_container_attempt v id expected = do
    ensure_writable v
    current ← found (lookup id v.data_of.pairs) (not_found "container")
    fail_if (nat_beq expected 0 || not (nat_beq current.revision expected))
        (revision_conflict "expected revision")
    fail_if
        (not (current.pair.attempt.phase == AttemptPhase.created)
          && not (current.pair.attempt.phase == AttemptPhase.stopped))
        (invalid_record "container phase")
    fail_if (not (is_empty current.host_resources)) (invalid_record "container host resources")

  unfoldable pub delete_container_attempt : View → Text → ℕ → View × Check
  unfolding check_delete_container_attempt
  delete_container_attempt v id expected =
      commit v (check_delete_container_attempt v id expected)
        (λ _. (record (v.data_of) { pairs = remove id v.data_of.pairs }, tt))
