-- ===== src/State/Retention/Laws.antt =====
-- What retention keeps of the data: it removes operations and old events, and changes no record.
use mydocker.Base.{
  none, inr, take, sort_by, fail_if, remove, inr, arith, subst, insert, inl, if-err-eq-ok, ℕ, ◌+◌,
  ◌-◌, ◌≡◌, refl, sym, ap, ◌∙◌, Bool, List, [], ◌∷◌, some, ok, Bool-cases, Option-cases, >>-eq-ok,
  >>=-eq-ok, ok_injective, lookup, lookup-of_remove, length, nat_beq,
}
use mydocker.Base.Int.{pos, ltb_ℤ, pos_part}
use mydocker.Text.{Text, text_eq}
use mydocker.Operation.Target.{OperationId}
use mydocker.State.Records.{OperationRecord}
use mydocker.State.Store.{MemoryData, RetentionPolicy}
use mydocker.State.Retention.{
  retention_capacity, started, settled, retire_excess, tombstone, max_revision, assign_orders,
  assign_terminal_sequences, missing_orders, precedes, retire, retirable, is_older, apply_retention,
  validate_policy,
}

-- The same records and events; no operation is new.
abbrev pub Retains : MemoryData → MemoryData → Type 0
Retains d e =
    (e.sandboxes ≡ d.sandboxes)
    × (e.pairs ≡ d.pairs)
    × (e.events ≡ d.events)
    × (e.last_event ≡ d.last_event)
    × ((id : OperationId) (r : OperationRecord)
        → lookup id e.operations ≡ some r
        → lookup id d.operations ≡ some r)

trans-Retains : (a b c : MemoryData) → Retains a b → Retains b c → Retains a c
trans-Retains a b c (s, p, e, l, o) (t, q, f, m, n) =
    (t ∙ s, q ∙ p, f ∙ e, m ∙ l, λ id r h. o id r (n id r h))

equal-Retains : (d e : MemoryData) → d ≡ e → Retains d e
equal-Retains d e h = subst (Retains d) h (refl, refl, refl, refl, λ id r found. found)

abbrev pub with_order : OperationId → MemoryData → MemoryData
with_order id d = record d {
  last_terminal = d.last_terminal + 1;
  terminal = insert id (d.last_terminal + 1) d.terminal;
}

assign_orders-Retains :
    (ids : List OperationId) (d e : MemoryData) → assign_orders ids d ≡ ok e → Retains d e
unfolding assign_orders
assign_orders-Retains [] d e h = equal-Retains d e (ok_injective h)
assign_orders-Retains (id ∷ ids) d e h =
    let (_, rest) = if-err-eq-ok (nat_beq d.last_terminal max_revision) _ _ h in
    let (s, p, v, l, o) = assign_orders-Retains ids (with_order id d) e rest in (s, p, v, l, o)

assign-Retains :
    (d e : MemoryData) (changed : Bool)
    → assign_terminal_sequences d ≡ ok (e, changed)
    → Retains d e
unfolding assign_terminal_sequences
assign-Retains d e changed h =
    let (missing, more, _) = >>=-eq-ok (missing_orders d.terminal d.operations) _ h in
    let (assigned, rest, given) =
      >>=-eq-ok (assign_orders (sort_by (precedes d) missing) d) _ more in
    subst (Retains d) (ap (λ x. x.0) (ok_injective rest))
      (assign_orders-Retains (sort_by (precedes d) missing) d assigned given)

started-Retains : (d : MemoryData) → Retains d (started d)
started-Retains d = elim (Bool-cases (nat_beq d.first_event 0)) [
  | inl t ↦ rw t (refl, refl, refl, refl, λ id r found. found)
  | inr f ↦ rw f (refl, refl, refl, refl, λ id r found. found)
]

-- What is absent stays absent.
pub absent-Retains :
    (d e : MemoryData) (id : OperationId)
    → Retains d e
    → lookup id d.operations ≡ none
    → lookup id e.operations ≡ none
absent-Retains d e id (_, _, _, _, held) gone = elim (Option-cases (lookup id e.operations)) [
  | inl missing ↦ missing
  | inr (r, found) ↦ let there = held id r found in cc
]

module _ (id_digest : OperationId → Text) where
  abbrev pub without_operation : OperationId × ℕ → OperationRecord → MemoryData → MemoryData
  without_operation (id, order) r d = record d {
    retired = insert (id_digest id) (tombstone id_digest d (id, order) r) d.retired;
    operations = remove id d.operations;
    terminal = remove id d.terminal;
  }

  pub retire-Retains :
      (old : List (OperationId × ℕ)) (d e : MemoryData)
      → retire id_digest old d ≡ ok e
      → Retains d e
  unfolding retire
  retire-Retains [] d e h = equal-Retains d e (ok_injective h)
  retire-Retains ((id, order) ∷ old) d e h = elim (Option-cases (lookup id d.operations)) [
    | inl missing ↦ absurd (ground arith)
    | inr (r, found) ↦
        let rest : retire id_digest old (without_operation (id, order) r d) ≡ ok e = ground arith in
        let (s, p, v, l, o) = retire-Retains old (without_operation (id, order) r d) e rest in
        (s, p, v, l, λ other x h. lookup-of_remove id other x d.operations (o other x h))
  ]

  retire_excess-Retains :
      (p : RetentionPolicy) (d e : MemoryData) (n : ℕ)
      → retire_excess id_digest p d ≡ ok (e, n)
      → Retains d e
  unfolding retire_excess
  retire_excess-Retains p d e n h =
      let (_, budget) =
        >>-eq-ok
          (fail_if (ltb_ℤ p.identity_limit (pos (length d.operations + length d.retired)))
            (retention_capacity "operation identities"))
          _ h in
      let (terminal, more, _) = >>=-eq-ok (retirable d d.terminal) _ budget in
      let excess = length terminal - pos_part p.terminal_limit in
      let old = take excess (sort_by is_older terminal) in
      let (kept, rest, gone) = >>=-eq-ok (retire id_digest old d) _ more in
      subst (Retains d) (ap (λ x. x.0) (ok_injective rest)) (retire-Retains old d kept gone)

  -- What a commit keeps: every record that is left was there, and the events left are the newest that the limit
  -- leaves.
  pub apply_retention-Retains :
      (p : RetentionPolicy) (d e : MemoryData) (changed : Bool)
      → apply_retention id_digest p d ≡ ok (e, changed)
      → (x : MemoryData) × Retains d x × (e ≡ settled p x)
  unfolding apply_retention
  apply_retention-Retains p d e changed h =
      let (_, known) = >>-eq-ok (validate_policy p) _ h in
      let ((assigned, a), more, first) =
        >>=-eq-ok (assign_terminal_sequences (started d)) _ known in
      let ((kept, n), rest, second) = >>=-eq-ok (retire_excess id_digest p assigned) _ more in
      (
        kept,
        trans-Retains d assigned kept
            (trans-Retains d (started d) assigned (started-Retains d)
              (assign-Retains (started d) assigned a first))
            (retire_excess-Retains p assigned kept n second),
        sym (ap (λ x. x.0) (ok_injective rest)),
      )
