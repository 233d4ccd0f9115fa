-- ===== src/Operation/Resolve/Laws.antt =====
-- What a retry of an operation does.
use mydocker.Base.{
  ◌≡◌, ◌≢◌, ◌↔◌, ◌⊎◌, inl, inr, Bool, true, false, none, some, ok, err, arith, beq_refl,
  Result-cases,
}
use mydocker.Text.{Text, text_eq}
use mydocker.Operation.Errors.{Error, active_conflict, is_binding_mismatch}
use mydocker.Operation.Vocabulary.{is_pending_or_running, type_eq}
use mydocker.Operation.Target.{
  Binding, target_eq, fingerprint_eq, validate_binding, compare_binding,
}
use mydocker.Operation.Record.{Operation, binding, validate_operation}
use mydocker.Operation.Resolve.{new, resume, replay, resolve, check_active_conflict}

-- compareBinding accepts exactly equal bindings, and answers a binding mismatch otherwise.
compare_binding-eq-ok : (a b : Binding) → (compare_binding a b ≡ ok tt) ↔ (a ≡ b)
unfolding compare_binding
compare_binding-eq-ok a b = (
  λ h. ground arith,
  λ h. ground (arith, beq_refl a.id, beq_refl a.type, beq_refl a.target, beq_refl a.fingerprint),
)

mismatch : (a b : Binding) {e : Error} → compare_binding a b ≡ err e → is_binding_mismatch e ≡ true
unfolding compare_binding is_binding_mismatch
mismatch a b h = ground arith

module _ (decodes : Text → Bool) (o : Operation) (b : Binding) where
  -- A stored operation may be retried with this binding.
  abbrev pub Matches : Type 0
  Matches = (validate_binding b ≡ ok tt) × (validate_operation decodes o ≡ ok tt) × (binding o ≡ b)

  -- Resolve starts a new operation exactly for a valid binding with no record. With a record it answers
  -- only if both are valid and the bindings are equal, and then resumes an active operation and
  -- replays any other.
  pub resolve_lem :
      ((resolve decodes none b ≡ ok new) ↔ (validate_binding b ≡ ok tt))
      × ((resolve decodes (some o) b ≡ ok resume)
          ↔ (Matches × (is_pending_or_running o.state ≡ true)))
      × ((resolve decodes (some o) b ≡ ok replay)
          ↔ (Matches × (is_pending_or_running o.state ≡ false)))
      × (resolve decodes (some o) b ≢ ok new)
  unfolding resolve
  resolve_lem =
      let (to, from) = compare_binding-eq-ok (binding o) b in
      (
        (λ h. ground arith, λ h. ground arith),
        (λ h. ground (arith, to), λ h. ground (arith, from)),
        (λ h. ground (arith, to), λ h. ground (arith, from)),
        λ h. ground arith,
      )

  refusal :
      ((u : Unit {0}) × (compare_binding (binding o) b ≡ ok u))
        ⊎ ((e : Error) × (compare_binding (binding o) b ≡ err e))
      → binding o ≢ b
      → (e : Error) × (compare_binding (binding o) b ≡ err e) × (is_binding_mismatch e ≡ true)
  refusal (inl (u, e)) n = absurd (n ((compare_binding-eq-ok (binding o) b).0 e))
  refusal (inr (e, h)) n = (e, h, mismatch (binding o) b h)

  -- A valid binding that differs from the binding of a valid record is refused as a binding mismatch.
  pub resolve-mismatch :
      validate_binding b ≡ ok tt
      → validate_operation decodes o ≡ ok tt
      → binding o ≢ b
      → (e : Error) × (resolve decodes (some o) b ≡ err e) × (is_binding_mismatch e ≡ true)
  unfolding resolve
  resolve-mismatch v w n =
      let (e, h, m) = refusal (Result-cases (compare_binding (binding o) b)) n in
      (e, rw (v, w, h, resolve), m)

  -- CheckActiveConflict reports a conflict exactly for a valid, active operation with another identity on
  -- the requested target.
  pub check_active_conflict-eq-err :
      (check_active_conflict decodes (some o) b ≡ err (active_conflict o.id b.id)) ↔ (
        (validate_binding b ≡ ok tt)
        × (validate_operation decodes o ≡ ok tt)
        × (is_pending_or_running o.state ≡ true)
        × (o.target ≡ b.target)
        × (o.id ≢ b.id))
  unfolding check_active_conflict
  check_active_conflict-eq-err = (λ h. ground arith, λ h. ground (arith, beq_refl o.target))
