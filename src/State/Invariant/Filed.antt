-- ===== src/State/Invariant/Filed.antt =====
-- Each record of a reachable store stands under its own identity, and passed the checks of its kind.
use mydocker.Base.{
  subst, ℕ, ◌≡◌, refl, sym, ap, ◌∙◌, ok, lookup, Holds, insert-Holds, remove-Holds, lookup-nil,
  >>-eq-ok,
}
use mydocker.Text.{Text, text_eq}
use mydocker.State.Records.{Codec, SandboxRecord, ContainerAttemptRecord, OperationRecord}
use mydocker.State.Store.{MemoryData, new_memory_data, RetentionPolicy, View, ensure_writable}
use mydocker.State.Validation.{
  validate_sandbox_record, validate_container_attempt_record, validate_operation_record,
}
use mydocker.State.Transaction.{check_sandbox, check_container_attempt}
use mydocker.State.Progress.Parts.{check_operation-eq-ok}
use mydocker.State.Memory.{MemoryStore, commit_data}
use mydocker.State.Write.{
  Write, writes_sandbox, drops_sandbox, writes_pair, drops_pair, writes_operation, writes_event,
}
use mydocker.State.Reachable.{Reachable, Reachable-Invariant}
use mydocker.State.Invariant.Committed.{commit_data-eq-ok}

module _ (codec : Codec) where
  -- The record passed its check with the revision that the caller wrote into it.
  abbrev pub FiledSandbox : Text → SandboxRecord → Type 0
  FiledSandbox id r =
      (r.sandbox.id ≡ id)
      × ((n : ℕ) × (validate_sandbox_record codec (record r { revision = n }) ≡ ok tt))

  abbrev pub FiledPair : Text → ContainerAttemptRecord → Type 0
  FiledPair id r =
      (r.pair.container.id ≡ id)
      × ((n : ℕ) × (validate_container_attempt_record codec (record r { revision = n }) ≡ ok tt))

  abbrev pub FiledOperation : Text → OperationRecord → Type 0
  FiledOperation id r =
      (r.operation.id ≡ id)
      × ((n : ℕ) × (validate_operation_record codec (record r { revision = n }) ≡ ok tt))

  abbrev pub Filed : MemoryData → Type 0
  Filed d =
      Holds FiledSandbox d.sandboxes × Holds FiledPair d.pairs × Holds FiledOperation d.operations

  sandbox_passed :
      (v : View) (r : SandboxRecord) (expected next : ℕ)
      → check_sandbox codec v r expected ≡ ok next
      → validate_sandbox_record codec r ≡ ok tt
  unfolding check_sandbox
  sandbox_passed v r expected next h =
      let (_, a) = >>-eq-ok (ensure_writable v) _ h in
      let (valid, _) = >>-eq-ok (validate_sandbox_record codec r) _ a in valid

  pair_passed :
      (v : View) (r : ContainerAttemptRecord) (expected next : ℕ)
      → check_container_attempt codec v r expected ≡ ok next
      → validate_container_attempt_record codec r ≡ ok tt
  unfolding check_container_attempt
  pair_passed v r expected next h =
      let (_, a) = >>-eq-ok (ensure_writable v) _ h in
      let (valid, _) = >>-eq-ok (validate_container_attempt_record codec r) _ a in valid

  Write-Filed : (a b : MemoryData) → Write codec a b → Filed a → Filed b
  Write-Filed a b (writes_sandbox v r expected next h) (s, p, o) = (
    insert-Holds FiledSandbox r.sandbox.id (record r { revision = next }) v.data_of.sandboxes
        (refl, (r.revision, sandbox_passed v r expected next h)) s,
    p,
    o,
  )
  Write-Filed a b (drops_sandbox v id expected h) (s, p, o) =
      (remove-Holds FiledSandbox id v.data_of.sandboxes s, p, o)
  Write-Filed a b (writes_pair v r expected next h) (s, p, o) = (
    s,
    insert-Holds FiledPair r.pair.container.id (record r { revision = next }) v.data_of.pairs
        (refl, (r.revision, pair_passed v r expected next h)) p,
    o,
  )
  Write-Filed a b (drops_pair v id expected h) (s, p, o) =
      (s, remove-Holds FiledPair id v.data_of.pairs p, o)
  Write-Filed a b (writes_operation v r expected next h) (s, p, o) =
      let (_, valid, _, _, _, _) = check_operation-eq-ok codec v r expected next h in
      (
        s,
        p,
        insert-Holds FiledOperation r.operation.id (record r { revision = next })
            v.data_of.operations (refl, (r.revision, valid)) o,
      )
  Write-Filed a b (writes_event v e stored h) filed = filed

  commit-Filed :
      (p : RetentionPolicy) (a b : MemoryData) → commit_data codec p a ≡ ok b → Filed a → Filed b
  commit-Filed p a b h (sandboxes, pairs, operations) =
      let (_, (left, (s, q, _, _, there), end)) = commit_data-eq-ok codec p a b h in
      let at_s = ap (λ (m : MemoryData). m.sandboxes) end ∙ s in
      let at_q = ap (λ (m : MemoryData). m.pairs) end ∙ q in
      let at_o = ap (λ (m : MemoryData). m.operations) end in
      (
        subst (Holds FiledSandbox) (sym at_s) sandboxes,
        subst (Holds FiledPair) (sym at_q) pairs,
        λ id r found. operations id r (there id r (sym (ap (lookup id) at_o) ∙ found)),
      )

  -- In a store that transactions reach, every Sandbox, pair and operation record is found under the identity in it, and
  -- passed the check of its kind when it was written.
  pub Reachable-Filed : (s : MemoryStore) → Reachable codec s → Filed s.contents
  unfolding new_memory_data
  Reachable-Filed s reached = Reachable-Invariant codec Filed Write-Filed commit-Filed s reached (
    λ id r found. absurd (lookup-nil id r found),
    λ id r found. absurd (lookup-nil id r found),
    λ id r found. absurd (lookup-nil id r found),
  )
