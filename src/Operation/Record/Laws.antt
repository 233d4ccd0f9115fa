-- ===== src/Operation/Record/Laws.antt =====
-- The states of an operation record.
use mydocker.Base.{>>-eq-ok, ◌≡◌, ◌≢◌, refl, ◌↔◌, ◌⊎◌, inl, inr, Bool, true, [], ok, arith}
use mydocker.Text.{Text}
use mydocker.Operation.Vocabulary.{
  State, pending, running, succeeded, failed, other_state, is_state, Stage, validate, complete,
  Outcome, result_pending, result_succeeded, result_failed, result_noop, ReasonClass, reason_none,
}
use mydocker.Operation.Record.{
  Operation, validate_fields, validate_result, validate_stage, validate_operation,
  validate_opaque_json,
}

-- The stage, result and reason that go with a state.
pub data Coherent : State → Stage → Outcome → ReasonClass → Type 0 where
  accepted : Coherent pending validate result_pending reason_none
  resumable :
      {stage : Stage}
      → stage ≢ validate
      → stage ≢ complete
      → Coherent running stage result_pending reason_none
  done : Coherent succeeded complete result_succeeded reason_none
  unneeded : Coherent succeeded complete result_noop reason_none
  broken :
      {reason : ReasonClass} → reason ≢ reason_none → Coherent failed complete result_failed reason

module _ (o : Operation) (r : validate_result o ≡ ok tt) (t : validate_stage o ≡ ok tt) where
  by_state : (s : State) → o.state ≡ s → is_state s ≡ true → Coherent s o.stage o.result o.reason
  unfolding validate_result validate_stage is_state
  by_state pending e h =
      let a : o.stage ≡ validate = ground arith in
      let b : o.result ≡ result_pending = ground arith in
      let c : o.reason ≡ reason_none = ground arith in rw (a, b, c) accepted
  by_state running e h =
      let b : o.result ≡ result_pending = ground arith in
      let c : o.reason ≡ reason_none = ground arith in
      rw (b, c) (resumable (λ x. ground arith) (λ x. ground arith))
  by_state succeeded e h =
      let a : o.stage ≡ complete = ground arith in
      let b : (o.result ≡ result_succeeded) ⊎ (o.result ≡ result_noop) = ground arith in
      let c : o.reason ≡ reason_none = ground arith in
      elim b [ inl d ↦ rw (a, d, c) done | inr d ↦ rw (a, d, c) unneeded ]
  by_state failed e h =
      let a : o.stage ≡ complete = ground arith in
      let b : o.result ≡ result_failed = ground arith in rw (a, b) (broken (λ x. ground arith))
  by_state (other_state x) e h = cc

ok_of_coherent :
    (o : Operation) {state : State} {stage : Stage} {result : Outcome} {reason : ReasonClass}
    → Coherent state stage result reason
    → o.state ≡ state
    → o.stage ≡ stage
    → o.result ≡ result
    → o.reason ≡ reason
    → (validate_result o ≡ ok tt) × (validate_stage o ≡ ok tt)
unfolding validate_result validate_stage
ok_of_coherent o accepted a b c d = (ground arith, ground arith)
ok_of_coherent o (resumable x y) a b c d = (ground arith, ground arith)
ok_of_coherent o done a b c d = (ground arith, ground arith)
ok_of_coherent o unneeded a b c d = (ground arith, ground arith)
ok_of_coherent o (broken x) a b c d = (ground arith, ground arith)

module _ (decodes : Text → Bool) (o : Operation) where
  known_state : validate_fields o ≡ ok tt → is_state o.state ≡ true
  unfolding validate_fields
  known_state h = ground arith

  readable :
      (validate_opaque_json decodes "operation response" o.response ≡ ok tt)
      ↔ ((o.response ≡ []) ⊎ (decodes o.response ≡ true))
  unfolding validate_opaque_json
  readable = (λ h. ground arith, λ h. ground arith)

  -- Operation.Validate accepts exactly a record whose fields are each valid, whose stage, result and
  -- reason go with its state, and whose response is empty or decodes.
  pub validate_operation-eq-ok : (validate_operation decodes o ≡ ok tt) ↔ (
      (validate_fields o ≡ ok tt)
      × Coherent o.state o.stage o.result o.reason
      × ((o.response ≡ []) ⊎ (decodes o.response ≡ true)))
  unfolding validate_operation
  validate_operation-eq-ok = (
    λ h.
        let (f, h1) = >>-eq-ok (validate_fields o) _ h in
        let (r, h2) = >>-eq-ok (validate_result o) _ h1 in
        let (j, t) = >>-eq-ok (validate_opaque_json decodes "operation response" o.response) _ h2 in
        (f, by_state o r t o.state refl (known_state f), readable.0 j),
    λ (f, c, j). let (r, t) = ok_of_coherent o c refl refl refl refl in rw (f, r, readable.1 j) t,
  )
