-- ===== src/State/Invariant/Replay.antt =====
-- The answer of a terminal operation survives every transaction, until it is retired and refused.
use mydocker.Base.{
  ℕ, refl, arith, is_ok, is_some, subst, ◌≡◌, sym, ap, ◌∙◌, Bool, true, false, ◌==◌, Option, none,
  some, ok, err, ◌⊎◌, inl, inr, lookup, insert, lookup-insert, lookup-insert_other, Bool-cases,
  beq→eq, >>=-eq-ok, >>-eq-ok, ok_injective, Result-cases,
}
use mydocker.Text.{text_eq}
use mydocker.Operation.Record.{Operation}
use mydocker.Operation.Target.{OperationId}
use mydocker.State.Errors.{operation_expired}
use mydocker.State.Records.{Codec, OperationRecord}
use mydocker.State.Store.{
  MemoryData, RetentionPolicy, RetiredOperation, View, get_operation, retired_operation_for,
}
use mydocker.State.Retention.{apply_retention}
use mydocker.State.Retention.Laws.{apply_retention-Retains, absent-Retains}
use mydocker.State.Retention.Replay.{apply_retention-IsKept, apply_retention-tombstone}
use mydocker.State.Reachable.{update-Invariant}
use mydocker.State.Progress.Parts.{check_operation-eq-ok}
use mydocker.State.Progress.{
  check_if_known, check_if_new, check_new_operation, check_operation, put_operation,
}
use mydocker.State.Progress.Terminal.{Answered, change-Answered}
use mydocker.State.Memory.{Callback, MemoryStore, commit_data, update}
use mydocker.State.Write.{
  Write, writes_sandbox, drops_sandbox, writes_pair, drops_pair, writes_operation, writes_event,
}
use mydocker.State.Whole.{validate_store}

-- A view of these data.
abbrev pub view_on : RetentionPolicy → Bool → Bool → MemoryData → View
view_on policy writable closed d = record {
  data_of = d;
  writable = writable;
  retention = policy;
  closed = closed;
}

module _ (codec : Codec) (id : OperationId) (o : Operation) where
  -- A record of that operation, under its identity.
  abbrev pub Stored : MemoryData → Type 0
  Stored d = (r : OperationRecord) × (lookup id d.operations ≡ some r) × (r.operation ≡ o)

  -- No record under its identity, and a tombstone of its binding and reason.
  abbrev pub Retired : MemoryData → Type 0
  Retired d =
      (t : RetiredOperation) × (lookup id d.operations ≡ none)
      × (lookup (codec.id_digest id) d.retired ≡ some t)
      × (t.type ≡ o.type)
      × (t.target ≡ o.target)
      × (t.fingerprint ≡ o.fingerprint)
      × (t.reason ≡ o.reason)

  abbrev pub Known : MemoryData → Type 0
  Known d = Stored d ⊎ Retired d

  -- Every PutOperation under the identity answers an error and writes nothing, and GetOperation answers that the
  -- operation is expired.
  abbrev pub Refused : MemoryData → Type 0
  Refused d =
      ((policy : RetentionPolicy) (writable closed : Bool) (p : OperationRecord) (expected : ℕ)
        → p.operation.id ≡ id
        → (is_ok (put_operation codec (view_on policy writable closed d) p expected).1 ≡ false)
          × ((put_operation codec (view_on policy writable closed d) p expected).0.data_of ≡ d))
      × ((policy : RetentionPolicy) (writable : Bool)
          → get_operation codec.id_digest (view_on policy writable false d) id
            ≡ err operation_expired)

  -- The record as it was, or refused for good.
  abbrev pub Replays : MemoryData → Type 0
  Replays d = Stored d ⊎ (Retired d × Refused d)

module _ (codec : Codec) (id : OperationId) (o : Operation) (answered : Answered o) where
  rewrite-same :
      (r p : OperationRecord) (at_id : OperationId → Option OperationRecord)
      → at_id p.operation.id ≡ some r
      → r.operation ≡ o
      → check_if_known codec p (at_id p.operation.id) ≡ ok tt
      → p.operation ≡ o
  unfolding check_if_known
  rewrite-same r p at_id there same h =
      let checked = subst (λ x. check_if_known codec p x ≡ ok tt) there h in
      change-Answered codec r p checked (subst Answered (sym same) answered) ∙ same

  Write-Stored : (a b : MemoryData) → Write codec a b → Stored codec id o a → Stored codec id o b
  Write-Stored a b (writes_sandbox v r expected next h) stored = stored
  Write-Stored a b (drops_sandbox v _ expected h) stored = stored
  Write-Stored a b (writes_pair v r expected next h) stored = stored
  Write-Stored a b (drops_pair v _ expected h) stored = stored
  Write-Stored a b (writes_event v e _ h) stored = stored
  Write-Stored a b (writes_operation v p expected next h) (r, there, same) =
      let (_, _, _, _, known, _) = check_operation-eq-ok codec v p expected next h in
      let new : OperationRecord = record p { revision = next } in
      elim (Bool-cases (p.operation.id == id)) [
        | inl t ↦
            let place = beq→eq p.operation.id id t in
            let found = ap (λ x. lookup x v.data_of.operations) place ∙ there in
            (
              new,
              ap (λ x. lookup x (insert p.operation.id new v.data_of.operations)) (sym place)
                  ∙ lookup-insert p.operation.id new v.data_of.operations,
              rewrite-same r p (λ x. lookup x v.data_of.operations) found same known,
            )
        | inr f ↦
            (r, lookup-insert_other p.operation.id id new v.data_of.operations f ∙ there, same)
      ]

  retention-Known :
      (p : RetentionPolicy) (a d : MemoryData) (changed : Bool)
      → apply_retention codec.id_digest p a ≡ ok (d, changed)
      → Known codec id o a
      → Known codec id o d
  retention-Known p a d changed h (inl (r, there, same)) =
      elim (apply_retention-IsKept codec.id_digest p a d changed id r h there) [
        | inl found ↦ inl (r, found, same)
        | inr (t, gone, found, type, target, fingerprint, reason) ↦ inr (
          t,
          gone,
          found,
          type ∙ ap (λ (x : Operation). x.type) same,
          target ∙ ap (λ (x : Operation). x.target) same,
          fingerprint ∙ ap (λ (x : Operation). x.fingerprint) same,
          reason ∙ ap (λ (x : Operation). x.reason) same,
        )
      ]
  retention-Known p a d changed h (inr (t, gone, there, kind, place, print, reason)) =
      let (x, retains, end) = apply_retention-Retains codec.id_digest p a d changed h in
      inr (
        t,
        ap (λ (y : MemoryData). lookup id y.operations) end ∙ absent-Retains a x id retains gone,
        apply_retention-tombstone codec.id_digest p a d changed (codec.id_digest id) t h there,
        kind,
        place,
        print,
        reason,
      )

  new_refused :
      (v : View) (p : OperationRecord)
      → is_some (lookup (codec.id_digest p.operation.id) v.data_of.retired) ≡ true
      → is_ok (check_new_operation codec v p) ≡ false
  unfolding check_new_operation retired_operation_for
  new_refused v p h = rw h refl

  -- The write of an identity that has a tombstone and no record is refused.
  write_refused :
      (v : View) (p : OperationRecord) (expected : ℕ)
      → Retired codec id o v.data_of
      → p.operation.id ≡ id
      → is_ok (check_operation codec v p expected) ≡ false
  unfolding check_if_new
  write_refused v p expected (t, gone, there, _, _, _, _) same =
      elim (Result-cases (check_operation codec v p expected)) [
        | inr (e, refused) ↦ rw refused refl
        | inl (next, accepted) ↦
            let (_, _, new, _, _, _) = check_operation-eq-ok codec v p expected next accepted in
            let none_there = ap (λ x. lookup x v.data_of.operations) same ∙ gone in
            let checked = subst (λ x. check_if_new codec v p x ≡ ok tt) none_there new in
            let refused = new_refused v p (
              ap (λ x. is_some (lookup (codec.id_digest x) v.data_of.retired)) same
              ∙ ap is_some there) in
            absurd (ground arith)
      ]

  Write-Retired : (a b : MemoryData) → Write codec a b → Retired codec id o a → Retired codec id o b
  Write-Retired a b (writes_sandbox v r expected next h) retired = retired
  Write-Retired a b (drops_sandbox v _ expected h) retired = retired
  Write-Retired a b (writes_pair v r expected next h) retired = retired
  Write-Retired a b (drops_pair v _ expected h) retired = retired
  Write-Retired a b (writes_event v e _ h) retired = retired
  Write-Retired a b (writes_operation v p expected next h)
        (t, gone, there, kind, place, print, reason) =
      elim (Bool-cases (p.operation.id == id)) [
        | inl same ↦
            let refused =
              write_refused v p expected (t, gone, there, kind, place, print, reason)
                (beq→eq p.operation.id id same) in
            absurd (ground arith)
        | inr f ↦
            let new : OperationRecord = record p { revision = next } in
            (
              t,
              lookup-insert_other p.operation.id id new v.data_of.operations f ∙ gone,
              there,
              kind,
              place,
              print,
              reason,
            )
      ]

  Write-Known : (a b : MemoryData) → Write codec a b → Known codec id o a → Known codec id o b
  Write-Known a b w (inl stored) = inl (Write-Stored a b w stored)
  Write-Known a b w (inr retired) = inr (Write-Retired a b w retired)

  commit-Known :
      (p : RetentionPolicy) (a b : MemoryData)
      → commit_data codec p a ≡ ok b
      → Known codec id o a
      → Known codec id o b
  unfolding commit_data
  commit-Known p a b h known =
      let ((d, changed), more, retained) = >>=-eq-ok (apply_retention codec.id_digest p a) _ h in
      let (valid, answer) = >>-eq-ok (validate_store codec d) _ more in
      subst (Known codec id o) (ok_injective answer) (retention-Known p a d changed retained known)

  Retired-Refused : (d : MemoryData) → Retired codec id o d → Refused codec id o d
  unfolding put_operation get_operation retired_operation_for
  Retired-Refused d (t, gone, there, kind, place, print, reason) = (
    λ policy writable closed p expected same.
        let v = view_on policy writable closed d in
        let refused =
          write_refused v p expected (t, gone, there, kind, place, print, reason) same in
        elim (Result-cases (check_operation codec v p expected)) [
          | inl (next, accepted) ↦ absurd (ground arith)
          | inr (e, failed) ↦ rw failed (refl, refl)
        ],
    λ policy writable. rw (gone, there) refl,
  )

  -- Where a store holds a terminal operation with its response, or holds no record of it and a tombstone of its type,
  -- target, fingerprint and reason, every Update leaves either the record with that very operation, or no
  -- record and such a tombstone. In the second case every PutOperation under the identity is refused and
  -- writes nothing, and GetOperation answers that the operation is expired.
  pub update-Replays :
      (s : MemoryStore) (fn : Option Callback) (before after : Bool)
      → Known codec id o s.contents
      → Replays codec id o (update codec s fn before after).0.contents
  update-Replays s fn before after known =
      elim (update-Invariant codec (Known codec id o) Write-Known commit-Known s fn before after
        known) [
          | inl stored ↦ inl stored
          | inr retired ↦
              inr (retired, Retired-Refused (update codec s fn before after).0.contents retired)
        ]
