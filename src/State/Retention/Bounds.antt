-- ===== src/State/Retention/Bounds.antt =====
-- How much a commit keeps.
use mydocker.Base.{
  length-drop, subst, ℕ, suc, ◌+◌, ◌-◌, ◌≤◌, ◌≡◌, refl, sym, ap, ◌∙◌, Bool, true, false, List, [],
  ◌∷◌, some, ok, arith, length, >>-eq-ok, >>=-eq-ok, ok_injective, lookup, insert, remove, Dict,
  fail_if, fail_if-eq-ok, ◌==◌, Eq, Bool-cases, inl, inr, sort_by, take,
}
use mydocker.Base.Int.{ℤ, pos, ltb_ℤ, pos_part, ◌≤ℤ◌}
use mydocker.Text.{Text, text_eq}
use mydocker.Operation.Event.{Event}
use mydocker.Operation.Target.{OperationId}
use mydocker.State.Errors.{retention_capacity}
use mydocker.State.Store.{MemoryData, RetentionPolicy}
use mydocker.State.Retention.{
  keep_suffix, retire, retire_excess, retirable, is_older, apply_retention, validate_policy,
  assign_terminal_sequences, started, tombstone,
}
use mydocker.State.Retention.Laws.{without_operation}
use mydocker.State.Retention.Replay.{retire-cons}

length-keep_suffix : (n : ℕ) (es : List Event) → length (keep_suffix n es) ≤ n
unfolding keep_suffix
length-keep_suffix n es = omega (arith, length-drop (length es - n) es)

module _ {K A : Type 0} ⦃e : Eq K⦄ where
  length-insert :
      (key : K) (value : A) (m : Dict K A) → length (insert key value m) ≤ suc (length m)
  unfolding insert
  length-insert key value [] = omega arith
  length-insert key value ((k, a) ∷ m) = elim (Bool-cases (k == key)) [
    | inl t ↦ rw t (omega arith)
    | inr f ↦ rw f (omega (arith, length-insert key value m))
  ]

  length-remove_le : (key : K) (m : Dict K A) → length (remove key m) ≤ length m
  unfolding remove
  length-remove_le key [] = omega arith
  length-remove_le key ((k, a) ∷ m) = elim (Bool-cases (k == key)) [
    | inl t ↦ rw t (omega (arith, length-remove_le key m))
    | inr f ↦ rw f (omega (arith, length-remove_le key m))
  ]

  -- What is found is removed.
  length-remove :
      (key : K) (value : A) (m : Dict K A)
      → lookup key m ≡ some value
      → suc (length (remove key m)) ≤ length m
  unfolding remove lookup
  length-remove key value [] h = cc
  length-remove key value ((k, a) ∷ m) h = elim (Bool-cases (k == key)) [
    | inl t ↦ rw t (omega (arith, length-remove_le key m))
    | inr f ↦
        let later : lookup key m ≡ some value = sym (rw f refl) ∙ h in
        rw f (omega (arith, length-remove key value m later))
  ]

within_budget : (limit : ℤ) (n m : ℕ) → ltb_ℤ limit (pos n) ≡ false → m ≤ n → pos m ≤ℤ limit
within_budget limit n m h le = ground arith

under_limit : (limit : ℤ) (n : ℕ) → ltb_ℤ (pos 0) limit ≡ true → n ≤ pos_part limit → pos n ≤ℤ limit
under_limit limit n h le = ground arith

pub event_limit_positive :
    (p : RetentionPolicy) → validate_policy p ≡ ok tt → ltb_ℤ (pos 0) p.event_limit ≡ true
unfolding validate_policy
event_limit_positive p h = ground arith

abbrev pub identities : MemoryData → ℕ
identities d = length d.operations + length d.retired

module _ (id_digest : OperationId → Text) where
  retire-identities :
      (old : List (OperationId × ℕ)) (d e : MemoryData)
      → retire id_digest old d ≡ ok e
      → identities e ≤ identities d
  unfolding retire
  retire-identities [] d e h = let same = ap identities (ok_injective h) in omega arith
  retire-identities ((id, order) ∷ old) d e h =
      let (r, found, _, rest) = retire-cons id_digest id order old d e h in
      let t = tombstone id_digest d (id, order) r in
      let fewer = retire-identities old (without_operation id_digest (id, order) r d) e rest in
      let removed = length-remove id r d.operations found in
      let added = length-insert (id_digest id) t d.retired in omega arith

  excess-identities :
      (p : RetentionPolicy) (d e : MemoryData) (n : ℕ)
      → retire_excess id_digest p d ≡ ok (e, n)
      → pos (identities e) ≤ℤ p.identity_limit
  unfolding retire_excess
  excess-identities p d e n h =
      let (within, budget) =
        >>-eq-ok
          (fail_if (ltb_ℤ p.identity_limit (pos (identities d)))
            (retention_capacity "operation identities"))
          _ h in
      let (terminal, more, _) = >>=-eq-ok (retirable d d.terminal) _ budget in
      let old = take (length terminal - pos_part p.terminal_limit) (sort_by is_older terminal) in
      let (kept, rest, gone) = >>=-eq-ok (retire id_digest old d) _ more in
      let fewer = retire-identities old d kept gone in
      let bound = fail_if-eq-ok _ _ within in
      subst (λ x. pos (identities x) ≤ℤ p.identity_limit) (ap (λ x. x.0) (ok_injective rest))
        (within_budget p.identity_limit (identities d) (identities kept) bound fewer)

  -- A commit that retention accepts keeps no more events than the limit of the policy, and no more identities of
  -- operations, full and retired together, than its budget.
  pub apply_retention-bounds :
      (p : RetentionPolicy) (d e : MemoryData) (changed : Bool)
      → apply_retention id_digest p d ≡ ok (e, changed)
      → (pos (length e.events) ≤ℤ p.event_limit) × (pos (identities e) ≤ℤ p.identity_limit)
  unfolding apply_retention
  apply_retention-bounds p d e changed h =
      let (policy, known) = >>-eq-ok (validate_policy p) _ h in
      let ((assigned, a), more, first) =
        >>=-eq-ok (assign_terminal_sequences (started d)) _ known in
      let ((kept, n), rest, second) = >>=-eq-ok (retire_excess id_digest p assigned) _ more in
      let few = excess-identities p assigned kept n second in
      let limit = pos_part p.event_limit in
      let events =
        under_limit p.event_limit (length (keep_suffix limit kept.events))
          (event_limit_positive p policy) (length-keep_suffix limit kept.events) in
      subst
        (λ x. (pos (length x.events) ≤ℤ p.event_limit) × (pos (identities x) ≤ℤ p.identity_limit))
        (ap (λ (x : MemoryData × Bool). x.0) (ok_injective rest)) (events, few)
