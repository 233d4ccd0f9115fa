-- ===== src/State/Retention/Replay.antt =====
-- What is left of an operation that retention retires.
use mydocker.Base.{
  none, remove, lookup-remove, subst, some_injective, arith, ℕ, ◌+◌, ◌≡◌, refl, sym, ap, ◌∙◌, Bool,
  false, List, [], ◌∷◌, some, ok, ◌==◌, ◌⊎◌, inl, inr, Bool-cases, Option-cases, if-err-eq-ok,
  >>-eq-ok, >>=-eq-ok, ok_injective, lookup, is_some, lookup-insert, lookup-insert_other,
  lookup-remove_other, beq→eq, sort_by, nat_beq, fail_if, take, length, ◌-◌,
}
use mydocker.Base.Int.{pos, ltb_ℤ, pos_part}
use mydocker.Text.{Text, text_eq}
use mydocker.Operation.Target.{OperationId}
use mydocker.State.Errors.{retention_capacity}
use mydocker.State.Advance.{max_revision}
use mydocker.State.Records.{OperationRecord}
use mydocker.State.Store.{MemoryData, RetiredOperation, RetentionPolicy}
use mydocker.State.Retention.{
  assign_orders, assign_terminal_sequences, missing_orders, precedes, retire, retirable, is_older,
  tombstone, retire_excess, started, apply_retention, validate_policy,
}
use mydocker.State.Retention.Laws.{without_operation, with_order, absent-Retains, retire-Retains}

assign_orders-operations :
    (ids : List OperationId) (d e : MemoryData)
    → assign_orders ids d ≡ ok e
    → (e.operations ≡ d.operations) × (e.retired ≡ d.retired)
unfolding assign_orders
assign_orders-operations [] d e h =
    let same = ok_injective h in
    (
      ap (λ (x : MemoryData). x.operations) (sym same),
      ap (λ (x : MemoryData). x.retired) (sym same),
    )
assign_orders-operations (id ∷ ids) d e h =
    let (_, rest) = if-err-eq-ok (nat_beq d.last_terminal max_revision) _ _ h in
    let (o, r) = assign_orders-operations ids (with_order id d) e rest in (o, r)

module _ (id_digest : OperationId → Text) where
  pub retire-cons :
      (id : OperationId) (order : ℕ) (old : List (OperationId × ℕ)) (d e : MemoryData)
      → retire id_digest ((id, order) ∷ old) d ≡ ok e
      → (r : OperationRecord) × (lookup id d.operations ≡ some r)
        × (is_some (lookup (id_digest id) d.retired) ≡ false)
        × (retire id_digest old (without_operation id_digest (id, order) r d) ≡ ok e)
  unfolding retire
  retire-cons id order old d e h = elim (Option-cases (lookup id d.operations)) [
    | inl missing ↦ absurd (ground arith)
    | inr (r, found) ↦ (r, found, ground arith, ground arith)
  ]

  -- A tombstone stays.
  retire-tombstone :
      (old : List (OperationId × ℕ)) (d e : MemoryData) (digest : Text) (t : RetiredOperation)
      → retire id_digest old d ≡ ok e
      → lookup digest d.retired ≡ some t
      → lookup digest e.retired ≡ some t
  unfolding retire
  retire-tombstone [] d e digest t h there =
      ap (λ (x : MemoryData). lookup digest x.retired) (sym (ok_injective h)) ∙ there
  retire-tombstone ((id, order) ∷ old) d e digest t h there =
      let (r, found, fresh, rest) = retire-cons id order old d e h in
      retire-tombstone old (without_operation id_digest (id, order) r d) e digest t rest
        (elim (Bool-cases (id_digest id == digest)) [
          | inl same ↦
              let taken =
                ap (λ g. is_some (lookup g d.retired)) (beq→eq (id_digest id) digest same)
                ∙ ap is_some there in
              cc
          | inr apart ↦
              lookup-insert_other (id_digest id) digest (tombstone id_digest d (id, order) r)
                d.retired apart
              ∙ there
        ])

  -- The record is still there, or it is gone and its tombstone holds its binding and reason.
  abbrev pub IsKept : OperationId → OperationRecord → MemoryData → Type 0
  IsKept id r e =
      (lookup id e.operations ≡ some r)
      ⊎ ((t : RetiredOperation) × (lookup id e.operations ≡ none)
          × (lookup (id_digest id) e.retired ≡ some t)
          × (t.type ≡ r.operation.type)
          × (t.target ≡ r.operation.target)
          × (t.fingerprint ≡ r.operation.fingerprint)
          × (t.reason ≡ r.operation.reason))

  retire-IsKept :
      (old : List (OperationId × ℕ)) (d e : MemoryData) (id : OperationId) (r : OperationRecord)
      → retire id_digest old d ≡ ok e
      → lookup id d.operations ≡ some r
      → IsKept id r e
  unfolding retire
  retire-IsKept [] d e id r h there =
      inl (ap (λ (x : MemoryData). lookup id x.operations) (sym (ok_injective h)) ∙ there)
  retire-IsKept ((k, order) ∷ old) d e id r h there =
      let (x, found, fresh, rest) = retire-cons k order old d e h in
      let without = without_operation id_digest (k, order) x d in
      elim (Bool-cases (k == id)) [
        | inl same ↦
            let place = beq→eq k id same in
            let own : x ≡ r =
              some_injective (sym found ∙ ap (λ y. lookup y d.operations) place ∙ there) in
            let t = tombstone id_digest d (k, order) x in
            let stays =
              retire-tombstone old without e (id_digest k) t rest
                (lookup-insert (id_digest k) t d.retired) in
            let removed : lookup id (remove k d.operations) ≡ none =
              ap (λ y. lookup y (remove k d.operations)) (sym place)
              ∙ lookup-remove k d.operations in
            inr (
              t,
              absent-Retains without e id (retire-Retains id_digest old without e rest) removed,
              ap (λ y. lookup (id_digest y) e.retired) (sym place) ∙ stays,
              ap (λ (y : OperationRecord). y.operation.type) own,
              ap (λ (y : OperationRecord). y.operation.target) own,
              ap (λ (y : OperationRecord). y.operation.fingerprint) own,
              ap (λ (y : OperationRecord). y.operation.reason) own,
            )
        | inr apart ↦
            retire-IsKept old without e id r rest
              (lookup-remove_other k id d.operations apart ∙ there)
      ]

  started-operations :
      (d : MemoryData) → ((started d).operations ≡ d.operations) × ((started d).retired ≡ d.retired)
  started-operations d = elim (Bool-cases (nat_beq d.first_event 0)) [
    | inl t ↦ rw t (refl, refl)
    | inr f ↦ rw f (refl, refl)
  ]

  assign-operations :
      (d e : MemoryData) (changed : Bool)
      → assign_terminal_sequences d ≡ ok (e, changed)
      → (e.operations ≡ d.operations) × (e.retired ≡ d.retired)
  unfolding assign_terminal_sequences
  assign-operations d e changed h =
      let (missing, more, _) = >>=-eq-ok (missing_orders d.terminal d.operations) _ h in
      let order = sort_by (precedes d) missing in
      let (assigned, rest, given) = >>=-eq-ok (assign_orders order d) _ more in
      let (operations, retired) = assign_orders-operations order d assigned given in
      let same = sym (ok_injective rest) in
      (
        ap (λ (x : MemoryData × Bool). x.0.operations) same ∙ operations,
        ap (λ (x : MemoryData × Bool). x.0.retired) same ∙ retired,
      )

  retire_excess-tombstone :
      (p : RetentionPolicy) (d e : MemoryData) (n : ℕ) (digest : Text) (t : RetiredOperation)
      → retire_excess id_digest p d ≡ ok (e, n)
      → lookup digest d.retired ≡ some t
      → lookup digest e.retired ≡ some t
  unfolding retire_excess
  retire_excess-tombstone p d e n digest t h there =
      let (_, budget) =
        >>-eq-ok
          (fail_if (ltb_ℤ p.identity_limit (pos (length d.operations + length d.retired)))
            (retention_capacity "operation identities"))
          _ h in
      let (terminal, more, _) = >>=-eq-ok (retirable d d.terminal) _ budget in
      let old = take (length terminal - pos_part p.terminal_limit) (sort_by is_older terminal) in
      let (kept, rest, gone) = >>=-eq-ok (retire id_digest old d) _ more in
      subst (λ (x : MemoryData). lookup digest x.retired ≡ some t)
        (ap (λ x. x.0) (ok_injective rest)) (retire-tombstone old d kept digest t gone there)

  -- Retention keeps every tombstone.
  pub apply_retention-tombstone :
      (p : RetentionPolicy) (d e : MemoryData) (changed : Bool) (digest : Text)
      (t : RetiredOperation)
      → apply_retention id_digest p d ≡ ok (e, changed)
      → lookup digest d.retired ≡ some t
      → lookup digest e.retired ≡ some t
  unfolding apply_retention
  apply_retention-tombstone p d e changed digest t h there =
      let (_, known) = >>-eq-ok (validate_policy p) _ h in
      let ((assigned, a), more, first) =
        >>=-eq-ok (assign_terminal_sequences (started d)) _ known in
      let ((kept, n), rest, second) = >>=-eq-ok (retire_excess id_digest p assigned) _ more in
      let same = (assign-operations (started d) assigned a first).1 ∙ (started-operations d).1 in
      let held =
        retire_excess-tombstone p assigned kept n digest t second
          (ap (lookup digest) same ∙ there) in
      subst (λ (x : MemoryData). lookup digest x.retired ≡ some t)
        (ap (λ x. x.0) (ok_injective rest)) held

  retire_excess-IsKept :
      (p : RetentionPolicy) (d e : MemoryData) (n : ℕ) (id : OperationId) (r : OperationRecord)
      → retire_excess id_digest p d ≡ ok (e, n)
      → lookup id d.operations ≡ some r
      → IsKept id r e
  unfolding retire_excess
  retire_excess-IsKept p d e n id r h there =
      let (_, budget) =
        >>-eq-ok
          (fail_if (ltb_ℤ p.identity_limit (pos (length d.operations + length d.retired)))
            (retention_capacity "operation identities"))
          _ h in
      let (terminal, more, _) = >>=-eq-ok (retirable d d.terminal) _ budget in
      let old = take (length terminal - pos_part p.terminal_limit) (sort_by is_older terminal) in
      let (kept, rest, gone) = >>=-eq-ok (retire id_digest old d) _ more in
      subst (IsKept id r) (ap (λ x. x.0) (ok_injective rest))
        (retire-IsKept old d kept id r gone there)

  -- Retention keeps an operation's record, or a tombstone of it.
  pub apply_retention-IsKept :
      (p : RetentionPolicy) (d e : MemoryData) (changed : Bool) (id : OperationId)
      (r : OperationRecord)
      → apply_retention id_digest p d ≡ ok (e, changed)
      → lookup id d.operations ≡ some r
      → IsKept id r e
  unfolding apply_retention
  apply_retention-IsKept p d e changed id r h there =
      let (_, known) = >>-eq-ok (validate_policy p) _ h in
      let ((assigned, a), more, first) =
        >>=-eq-ok (assign_terminal_sequences (started d)) _ known in
      let ((kept, n), rest, second) = >>=-eq-ok (retire_excess id_digest p assigned) _ more in
      let same = (assign-operations (started d) assigned a first).0 ∙ (started-operations d).0 in
      let held = retire_excess-IsKept p assigned kept n id r second (ap (lookup id) same ∙ there) in
      subst (IsKept id r) (ap (λ x. x.0) (ok_injective rest)) held
