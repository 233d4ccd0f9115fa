-- ===== src/State/Retention/Newest.antt =====
-- Which events and records a commit leaves.
use mydocker.Base.{
  take-drop, length-drop, ℕ, zero, suc, ◌-◌, ◌≡◌, ◌⊎◌, inl, inr, refl, ap, true, subst, Bool, List,
  [], ◌∷◌, ◌++◌, some, ok, arith, drop, take, length, lookup, >>-eq-ok, ltb, Bool-cases,
}
use mydocker.Base.Int.{ℤ, pos, negsuc, ltb_ℤ, pos_part, ◌≤ℤ◌}
use mydocker.Text.{Text, text_eq}
use mydocker.Operation.Event.{Event}
use mydocker.Operation.Target.{OperationId}
use mydocker.State.Records.{OperationRecord}
use mydocker.State.Store.{MemoryData, RetentionPolicy}
use mydocker.State.Retention.{
  keep_suffix, apply_retention, validate_policy, settled, next_available_event_sequence,
}
use mydocker.State.Retention.Laws.{apply_retention-Retains}
use mydocker.State.Retention.Bounds.{event_limit_positive}

-- The events behind older ones that are gone: all of the events where they fit, and otherwise the limit's number.
abbrev pub IsNewest : ℤ → List Event → List Event → Type 0
IsNewest limit before after =
    (older : List Event) × (older ++ after ≡ before)
    × (pos (length after) ≤ℤ limit)
    × ((older ≡ []) ⊎ (pos (length after) ≡ limit))

take_none : {A : Type 0} (n : ℕ) (xs : List A) → n ≡ 0 → take n xs ≡ []
take_none zero xs h = refl
take_none (suc n) xs h = absurd (omega arith)

suffix-IsNewest :
    (limit : ℤ) (es : List Event)
    → ltb_ℤ (pos 0) limit ≡ true
    → IsNewest limit es (keep_suffix (pos_part limit) es)
unfolding keep_suffix
suffix-IsNewest (negsuc n) es h = absurd (ground arith)
suffix-IsNewest (pos n) es h =
    let gone = length es - n in
    let size = length-drop gone es in
    (
      take gone es,
      take-drop gone es,
      ground (arith, size),
      elim (Bool-cases (ltb n (length es))) [
        | inl more ↦
            let full : length (drop gone es) ≡ n = ground (arith, size) in inr (ap pos full)
        | inr all ↦ inl (take_none gone es (ground arith))
      ],
    )

first_kept :
    (d : MemoryData) (x : Event) (rest : List Event)
    → d.events ≡ x ∷ rest
    → next_available_event_sequence d ≡ x.sequence
unfolding next_available_event_sequence
first_kept d x rest h = rw h refl

module _ (id_digest : OperationId → Text) where
  -- What a commit that retention accepts leaves: every Sandbox and pair and the last event sequence as they were, of the
  -- operations only ones that were there and as they were, and of the events the newest, all of them where
  -- the limit of the policy allows it and otherwise as many as the limit. The first available sequence is that of
  -- the first event that is left.
  pub apply_retention-Newest :
      (p : RetentionPolicy) (d e : MemoryData) (changed : Bool)
      → apply_retention id_digest p d ≡ ok (e, changed)
      → (e.sandboxes ≡ d.sandboxes)
        × (e.pairs ≡ d.pairs)
        × (e.last_event ≡ d.last_event)
        × ((id : OperationId) (r : OperationRecord)
            → lookup id e.operations ≡ some r
            → lookup id d.operations ≡ some r)
        × IsNewest p.event_limit d.events e.events
        × ((x : Event) (rest : List Event) → e.events ≡ x ∷ rest → e.first_event ≡ x.sequence)
  unfolding apply_retention
  apply_retention-Newest p d e changed h =
      let (policy, _) = >>-eq-ok (validate_policy p) _ h in
      let (x, (sandboxes, pairs, events, last, operations), end) =
        apply_retention-Retains id_digest p d e changed h in
      let newest = suffix-IsNewest p.event_limit x.events (event_limit_positive p policy) in
      rw end (
        sandboxes,
        pairs,
        last,
        operations,
        subst (λ es. IsNewest p.event_limit es (keep_suffix (pos_part p.event_limit) x.events))
            events newest,
        first_kept (settled p x),
      )
