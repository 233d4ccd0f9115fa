-- ===== src/State/Progress/Parts.antt =====
-- What an accepted write of an operation has passed.
use mydocker.Base.{
  beq→eq, sym, ◌∙◌, ap, lookup-cons, subst, if◌then◌else◌, ℕ, ◌≡◌, refl, Bool, true, false, not,
  ◌&&◌, [], ◌∷◌, Option, some, ok, is_some, lookup, Dict, >>-eq-ok, >>=-eq-ok, ok_injective,
  if-err-eq-ok, inl, inr, ◌==◌,
}
use mydocker.Text.{Text, text_eq}
use mydocker.Operation.Vocabulary.{is_pending_or_running}
use mydocker.State.Records.{Codec, OperationRecord}
use mydocker.State.Store.{View, ensure_writable, holds_target}
use mydocker.State.Validation.{validate_operation_record}
use mydocker.State.Advance.{next_revision}
use mydocker.State.Transaction.{revision_or_zero}
use mydocker.State.Progress.{
  active_operation, check_operation, check_if_new, check_if_known, other_active,
}

module _ (codec : Codec) (v : View) (o : OperationRecord) where
  abbrev pub current_operation : Option OperationRecord
  current_operation = lookup o.operation.id v.data_of.operations

  abbrev pub AssignedRevision : ℕ → ℕ → Type 0
  AssignedRevision expected next =
      next_revision expected
        (revision_or_zero (λ (x : OperationRecord). x.revision) current_operation)
        (is_some current_operation)
      ≡ ok next

  -- The checks of PutOperation, in their order.
  pub check_operation-eq-ok :
      (expected next : ℕ)
      → check_operation codec v o expected ≡ ok next
      → (ensure_writable v ≡ ok tt)
        × (validate_operation_record codec o ≡ ok tt)
        × (check_if_new codec v o current_operation ≡ ok tt)
        × AssignedRevision expected next
        × (check_if_known codec o current_operation ≡ ok tt)
        × (is_pending_or_running o.operation.state ≡ true
            → other_active o v.data_of.operations ≡ ok tt)
  unfolding check_operation
  check_operation-eq-ok expected next h =
      let (writable, a) = >>-eq-ok (ensure_writable v) _ h in
      let (valid, b) = >>-eq-ok (validate_operation_record codec o) _ a in
      let (new, c) = >>-eq-ok (check_if_new codec v o current_operation) _ b in
      let (n, d, given) =
        >>=-eq-ok
          (next_revision expected
            (revision_or_zero (λ (x : OperationRecord). x.revision) current_operation)
            (is_some current_operation))
          _ c in
      let (known, e) = >>-eq-ok (check_if_known codec o current_operation) _ d in
      let (free, f) =
        >>-eq-ok
          (if is_pending_or_running o.operation.state
            then other_active o v.data_of.operations
            else ok tt)
          _ e in
      (
        writable,
        valid,
        new,
        subst (AssignedRevision expected) (ok_injective f) given,
        known,
        λ active.
            subst (λ b. (if b then other_active o v.data_of.operations else ok tt) ≡ ok tt) active
              free,
      )

not_and : (b : Bool) {c : Bool} → c ≡ true → (not b && c) ≡ false → b ≡ true
not_and true c h = refl
not_and false c h = cc

-- No other operation that is looked up is active on the target.
pub other_active-lookup :
    (o : OperationRecord) (m : Dict Text OperationRecord) (id : Text) (r : OperationRecord)
    → other_active o m ≡ ok tt
    → lookup id m ≡ some r
    → holds_target o.operation.target r ≡ true
    → id ≡ o.operation.id
unfolding other_active lookup
other_active-lookup o [] id r free found active = cc
other_active-lookup o ((k, x) ∷ m) id r free found active =
    let (apart, rest) =
      if-err-eq-ok (not (k == o.operation.id) && holds_target o.operation.target x)
        (active_operation k o.operation.id) (other_active o m) free in
    elim (lookup-cons id k x r m found) [
      | inl (same, equal) ↦
          let holds = ap (holds_target o.operation.target) equal ∙ active in
          let named : (k == o.operation.id) ≡ true = not_and (k == o.operation.id) holds apart in
          sym same ∙ beq→eq k o.operation.id named
      | inr later ↦ other_active-lookup o m id r rest later active
    ]
