-- ===== src/State/Invariant/Graph.antt =====
-- What the checks of the whole store say of the records that it holds.
use mydocker.State.Validation.{attempt_target, container_target}
use mydocker.Domain.ActiveAttempt.{validate_one_active_attempt}
use mydocker.State.Receipts.{unless_ok}
use mydocker.Base.{
  All, option_eq, arith, map, nat_beq, fail_if, subst, lookup-nil, ◌≡◌, true, ◌==◌, List, [], ◌∷◌,
  some, ok, lookup, Dict, lookup-cons, inl, inr, >>-eq-ok, Option-cases, beq→eq,
}
use mydocker.Text.{Text, text_eq}
use mydocker.Domain.SandboxPhase
use mydocker.Domain.SandboxPhase.{sandbox_phase_eq}
use mydocker.Domain.AttemptPhase
use mydocker.Domain.AttemptPhase.{attempt_phase_eq, is_active_attempt}
use mydocker.Operation.Target.{target_eq}
use mydocker.Ownership.Receipt.{Receipt}
use mydocker.State.Errors.{invariant_violation, Check}
use mydocker.State.Records.{Codec, SandboxRecord, ContainerAttemptRecord, OperationRecord}
use mydocker.State.Store.{MemoryData}
use mydocker.State.Graph.{
  all_checks, validate_ownership_graph, validate_inventory_provenance, is_acquired,
}
use mydocker.State.Whole.{
  validate_current_observation_generation, validate_observation_reference,
  validate_current_reference, pair_of, validate_stored_sandbox, validate_orders, validate_terminal,
  validate_event_binding, validate_suffix, validate_store, validate_stored_pair,
  validate_active_pair, check_owner, names_pair,
}
use mydocker.State.Memory.{MemoryStore}
use mydocker.State.Reachable.{Reachable}
use mydocker.State.Invariant.Committed.{Reachable-Valid}

-- A check of every entry is one of the value that a key finds.
pub all_checks-lookup {ℓ} :
    {A : Type ℓ} (check : Text × A → Check) (m : Dict Text A) (key : Text) (value : A)
    → all_checks check m ≡ ok tt
    → lookup key m ≡ some value
    → check (key, value) ≡ ok tt
all_checks-lookup check [] key value h found = absurd (lookup-nil key value found)
all_checks-lookup check ((k, a) ∷ m) key value h found =
    let (here, rest) = >>-eq-ok (check (k, a)) (all_checks check m) h in
    elim (lookup-cons key k a value m found) [
      | inl (same, equal) ↦
          subst (λ x. check (x, value) ≡ ok tt) same (subst (λ x. check (k, x) ≡ ok tt) equal here)
      | inr later ↦ all_checks-lookup check m key value rest later
    ]

module _ (d : MemoryData) where
  -- The Sandbox of an active pair, which is ready and names the pair.
  abbrev pub OwnedPair : Text → ContainerAttemptRecord → Type 0
  OwnedPair id r =
      (s : SandboxRecord) × (lookup r.pair.container.sandbox_id d.sandboxes ≡ some s)
      × (s.sandbox.status.phase ≡ SandboxPhase.ready)
      × (s.sandbox.status.current_container_id ≡ some id)
      × (s.sandbox.status.current_attempt_id ≡ some r.pair.attempt.id)

  -- A receipt of an inventory, and the operation that acquired it.
  abbrev pub Acquired : Receipt → Type 0
  Acquired r =
      (o : OperationRecord) × (lookup r.owner.operation_id d.operations ≡ some o)
      × (o.operation.target ≡ r.owner.target)
      × (is_acquired r o.receipts ≡ true)

module _ (codec : Codec) (d : MemoryData) (v : validate_store codec d ≡ ok tt) where
  store_parts :
      (all_checks (validate_stored_pair codec.id_digest d) d.pairs ≡ ok tt)
      × (all_checks (validate_active_pair d) d.pairs ≡ ok tt)
      × (validate_ownership_graph d ≡ ok tt)
  unfolding validate_store
  store_parts =
      let (_, a) =
        >>-eq-ok (fail_if (nat_beq d.first_event 0) (invariant_violation "retention metadata")) _
          v in
      let (_, b) = >>-eq-ok (validate_suffix codec.decodes d) _ a in
      let (_, c) = >>-eq-ok (all_checks (validate_event_binding codec.id_digest d) d.events) _ b in
      let (_, e) = >>-eq-ok (all_checks (validate_terminal codec.id_digest d) d.operations) _ c in
      let (_, f) = >>-eq-ok (validate_orders d) _ e in
      let (_, g) =
        >>-eq-ok (all_checks (validate_stored_sandbox codec.id_digest d) d.sandboxes) _ f in
      let (pairs, h) = >>-eq-ok (all_checks (validate_stored_pair codec.id_digest d) d.pairs) _ g in
      let (_, i) =
        >>-eq-ok
          (unless_ok (validate_one_active_attempt (map pair_of d.pairs))
            (invariant_violation "container attempt set"))
          _ h in
      let (_, j) = >>-eq-ok (all_checks (validate_current_reference d) d.sandboxes) _ i in
      let (active, graph) = >>-eq-ok (all_checks (validate_active_pair d) d.pairs) _ j in
      (pairs, active, graph)

  owner_parts :
      (id : Text) (r : ContainerAttemptRecord)
      → lookup id d.pairs ≡ some r
      → check_owner codec.id_digest r.pair (lookup r.pair.container.sandbox_id d.sandboxes) ≡ ok tt
  unfolding validate_stored_pair
  owner_parts id r found =
      let (pairs, _, _) = store_parts in
      let h = all_checks-lookup (validate_stored_pair codec.id_digest d) d.pairs id r pairs found in
      let o = r.pair.attempt.last_observation in
      let (_, a) =
        >>-eq-ok
          (fail_if (r.pair.attempt.phase == AttemptPhase.absent)
            (invariant_violation "absent container"))
          _ h in
      let (_, b) =
        >>-eq-ok
          (validate_observation_reference codec.id_digest d o
            (container_target r.pair.container.id ∷ attempt_target r.pair.attempt.id ∷ []))
          _ a in
      let (_, owner) =
        >>-eq-ok
          (validate_current_observation_generation codec.id_digest d o
            r.pair.container.status.generation r.pair.container.status.observed_generation)
          _ b in
      owner

  active_owner :
      (id : Text) (r : ContainerAttemptRecord)
      → lookup id d.pairs ≡ some r
      → is_active_attempt r.pair.attempt.phase ≡ true
      → OwnedPair d id r
  unfolding validate_active_pair
  active_owner id r found active =
      let (_, pairs, _) = store_parts in
      let h = all_checks-lookup (validate_active_pair d) d.pairs id r pairs found in
      let owner = owner_parts id r found in
      elim (Option-cases (lookup r.pair.container.sandbox_id d.sandboxes)) [
        | inl missing ↦ absurd (ground arith)
        | inr (s, there) ↦
            let ready : (s.sandbox.status.phase == SandboxPhase.ready) ≡ true = ground arith in
            let names : names_pair id r.pair.attempt.id (some s) ≡ true = ground arith in
            let container : (s.sandbox.status.current_container_id == some id) ≡ true =
              ground arith in
            let attempt : (s.sandbox.status.current_attempt_id == some r.pair.attempt.id) ≡ true =
              ground arith in
            (
              s,
              there,
              beq→eq s.sandbox.status.phase SandboxPhase.ready ready,
              beq→eq s.sandbox.status.current_container_id (some id) container,
              beq→eq s.sandbox.status.current_attempt_id (some r.pair.attempt.id) attempt,
            )
      ]

  provenance-Acquired : (r : Receipt) → validate_inventory_provenance d r ≡ ok tt → Acquired d r
  unfolding validate_inventory_provenance
  provenance-Acquired r h = elim (Option-cases (lookup r.owner.operation_id d.operations)) [
    | inl missing ↦ absurd (ground arith)
    | inr (o, there) ↦
        let target : (o.operation.target == r.owner.target) ≡ true = ground arith in
        let acquired : is_acquired r o.receipts ≡ true = ground arith in
        (o, there, beq→eq o.operation.target r.owner.target target, acquired)
  ]

  All-Acquired :
      (rs : List Receipt)
      → all_checks (validate_inventory_provenance d) rs ≡ ok tt
      → All (Acquired d) rs
  All-Acquired [] h = tt
  All-Acquired (r ∷ rs) h =
      let (here, rest) = >>-eq-ok (validate_inventory_provenance d r) _ h in
      (provenance-Acquired r here, All-Acquired rs rest)

module _ (codec : Codec) (s : MemoryStore) (reached : Reachable codec s) where
  -- In a store that transactions reach, an active Attempt belongs to a Sandbox that is stored, ready, and names the
  -- pair as its current one.
  pub Reachable-OwnedPair :
      (id : Text) (r : ContainerAttemptRecord)
      → lookup id s.contents.pairs ≡ some r
      → is_active_attempt r.pair.attempt.phase ≡ true
      → OwnedPair s.contents id r
  Reachable-OwnedPair id r found active =
      active_owner codec s.contents (Reachable-Valid codec s reached) id r found active

  -- In a store that transactions reach, each receipt of the inventory of a Sandbox or of a pair was acquired,
  -- with the same evidence, by the operation that it names, which is stored and has the target of the
  -- receipt.
  pub Reachable-Acquired :
      ((id : Text) (r : SandboxRecord)
        → lookup id s.contents.sandboxes ≡ some r
        → All (Acquired s.contents) r.host_resources)
      × ((id : Text) (r : ContainerAttemptRecord)
          → lookup id s.contents.pairs ≡ some r
          → All (Acquired s.contents) r.host_resources)
  unfolding validate_ownership_graph
  Reachable-Acquired =
      let v = Reachable-Valid codec s reached in
      let (_, _, graph) = store_parts codec s.contents v in
      let trace = λ (rs : List Receipt). all_checks (validate_inventory_provenance s.contents) rs in
      let (sandboxes, rest) =
        >>-eq-ok
          (all_checks (λ (x : Text × SandboxRecord). trace x.1.host_resources) s.contents.sandboxes)
          _ graph in
      let (pairs, _) =
        >>-eq-ok
          (all_checks (λ (x : Text × ContainerAttemptRecord). trace x.1.host_resources)
            s.contents.pairs)
          _ rest in
      (
        λ id r found. All-Acquired codec s.contents v r.host_resources (
            all_checks-lookup (λ (x : Text × SandboxRecord). trace x.1.host_resources)
              s.contents.sandboxes id r sandboxes found),
        λ id r found. All-Acquired codec s.contents v r.host_resources (
            all_checks-lookup (λ (x : Text × ContainerAttemptRecord). trace x.1.host_resources)
              s.contents.pairs id r pairs found),
      )
