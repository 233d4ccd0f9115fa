-- ===== src/State/Progress/Swap.antt =====
-- PutOperation compares and swaps: of two writers that saw the same revision, one is refused.
use mydocker.State.Write.{with_operation}
use mydocker.Base.{
  subst, ℕ, suc, ◌≡◌, ◌≢◌, refl, sym, ap, ◌∙◌, Bool, true, false, some, Result, ok, err, arith,
  is_ok, is_some, lookup, lookup-insert, lookup-insert_other, Result-cases, ok_injective, inl, inr,
  ◌==◌,
}
use mydocker.Text.{Text, text_eq}
use mydocker.State.Errors.{Error}
use mydocker.State.Records.{Codec, OperationRecord}
use mydocker.State.Store.{View}
use mydocker.State.Advance.{next_revision}
use mydocker.State.Transaction.{commit, revision_or_zero}
use mydocker.State.Progress.{MemoryData, check_operation, put_operation}
use mydocker.State.Progress.Parts.{check_operation-eq-ok}

-- An assigned revision is the next one of that expected.
pub next_revision-eq-ok :
    (expected current : ℕ) (exists : Bool) (n : ℕ)
    → next_revision expected current exists ≡ ok n
    → n ≡ suc expected
unfolding next_revision
next_revision-eq-ok expected current false n h = ground arith
next_revision-eq-ok expected current true n h = ground arith

stale_revision : (expected n : ℕ) → next_revision expected (suc expected) true ≢ ok n
unfolding next_revision
stale_revision expected n h = ground arith

pub commit-eq-ok {ℓ κ} :
    {A : Type ℓ} {B : Type κ} (v w : View) (check : Result Error A) (change : A → MemoryData × B)
    (b : B)
    → commit v check change ≡ (w, ok b)
    → (a : A) × (check ≡ ok a) × (record v { data_of = (change a).0 } ≡ w) × ((change a).1 ≡ b)
commit-eq-ok v w (ok a) change b h = (a, refl, ap (λ x. x.0) h, ok_injective (ap (λ x. x.1) h))
commit-eq-ok v w (err e) change b h = cc (ap (λ x. x.1) h)

module _ (codec : Codec) where
  -- The revision that a record stored at the next revision leaves to a writer at the one before.
  refused_stale :
      (w : View) (p stored : OperationRecord) (expected : ℕ)
      → lookup p.operation.id w.data_of.operations ≡ some stored
      → stored.revision ≡ suc expected
      → is_ok (put_operation codec w p expected).1 ≡ false
  unfolding put_operation
  refused_stale w p stored expected there revision =
      elim (Result-cases (check_operation codec w p expected)) [
        | inr (e, refused) ↦ rw (put_operation, refused) refl
        | inl (n, accepted) ↦
            let (_, _, _, given, _, _) = check_operation-eq-ok codec w p expected n accepted in
            let at_record =
              subst
                (λ x.
                  next_revision expected (revision_or_zero (λ (y : OperationRecord). y.revision) x)
                    (is_some x)
                  ≡ ok n)
                there given in
            absurd (
              stale_revision expected n
                (subst (λ m. next_revision expected m true ≡ ok n) revision at_record))
      ]

  -- What an accepted write of an operation makes: the record is stored under its identity with the next revision,
  -- the other records are as they were, and a second write of that identity at the same revision is
  -- refused, whatever it writes.
  pub put_operation-eq-ok :
      (v w : View) (o stored : OperationRecord) (expected : ℕ)
      → put_operation codec v o expected ≡ (w, ok stored)
      → (stored ≡ record o { revision = suc expected })
        × (lookup o.operation.id w.data_of.operations ≡ some stored)
        × ((other : Text)
            → (o.operation.id == other) ≡ false
            → lookup other w.data_of.operations ≡ lookup other v.data_of.operations)
        × ((p : OperationRecord)
            → p.operation.id ≡ o.operation.id
            → is_ok (put_operation codec w p expected).1 ≡ false)
  unfolding put_operation
  put_operation-eq-ok v w o stored expected h =
      let (next, accepted, made, same) =
        commit-eq-ok v w (check_operation codec v o expected)
          (λ n. (with_operation v o n, record o { revision = n })) stored h in
      let (_, _, _, given, _, _) = check_operation-eq-ok codec v o expected next accepted in
      let revision = next_revision-eq-ok expected _ _ next given in
      let left = ap (λ (x : View). x.data_of.operations) (sym made) in
      let shape = sym same ∙ ap (λ n. record o { revision = n }) revision in
      let there =
        ap (lookup o.operation.id) left
        ∙ lookup-insert o.operation.id (record o { revision = next }) v.data_of.operations
        ∙ ap some same in
      (
        shape,
        there,
        λ other apart.
            ap (lookup other) left
            ∙ lookup-insert_other o.operation.id other (record o { revision = next })
                v.data_of.operations apart,
        λ p id.
            refused_stale w p stored expected (ap (λ x. lookup x w.data_of.operations) id ∙ there)
              (ap (λ (x : OperationRecord). x.revision) shape),
      )
