-- ===== src/State/RollbackAdvance/Laws.antt =====
-- The store accepts the snapshots of a stack in the order in which they are taken.
use mydocker.Base.{
  ◌≡◌, refl, Bool, true, false, not, Bool-cases, inl, inr, List, [], ◌∷◌, ◌++◌, map, Option, ok,
  arith, any, length, ltb, ◌∙◌, beq_refl, ap, ◌&&◌,
}
use mydocker.Rollback.Record.{Record, Descriptor}
use mydocker.Rollback.Stack.{Inverse, Step, Stack, push, begin, record_of, snapshot}
use mydocker.Rollback.Stack.Laws.{step_of, push_cases}
use mydocker.Rollback.Run.{run_stack}
use mydocker.Rollback.Run.Laws.{Later}
use mydocker.Rollback.Run.Retry.{
  Call, pushes, begins, runs, apply, apply_all, push_sealed, run_stack_sealed, run_stack-Later,
}
use mydocker.State.RollbackAdvance.{
  descriptor_eq, validate_step_advance, validate_steps_advance, validate_rollback_advance,
}

and_false : (a b c : Bool) → (c ≡ true → a ≡ false) → (c ≡ false → b ≡ false) → (a && b) ≡ false
and_false a b c f g = elim (Bool-cases c) [
  | inl h ↦ ground (arith, f h)
  | inr h ↦ ground (arith, g h)
]

flip : (a b : Bool) → (a ≡ true → b ≡ true) → not b ≡ true → not a ≡ true
flip true b f h = cc (f refl)
flip false b f h = refl

module _ {World : Type 0} where
  -- The steps of a stack, and of what it becomes: while it is open steps may come behind them.
  abbrev Grows : Bool → List (Step World) → List (Step World) → Type 0
  Grows free [] [] = Unit
  Grows free [] (t ∷ more) = free ≡ true
  Grows free (s ∷ steps) [] = ⊥
  Grows free (s ∷ steps) (t ∷ more) =
      (t.descriptor ≡ s.descriptor)
      × (s.succeeded ≡ true → t.succeeded ≡ true)
      × Grows free steps more

  Grows-refl : (free : Bool) (steps : List (Step World)) → Grows free steps steps
  Grows-refl free [] = tt
  Grows-refl free (s ∷ steps) = (refl, λ h. h, Grows-refl free steps)

  Grows-Later :
      (free : Bool) (steps more : List (Step World)) → Later steps more → Grows free steps more
  Grows-Later free [] [] h = tt
  Grows-Later free [] (_ ∷ _) h = absurd h
  Grows-Later free (_ ∷ _) [] h = absurd h
  Grows-Later free (s ∷ steps) (t ∷ more) (d, i, g, h) = (d, g, Grows-Later free steps more h)

  Grows-append : (steps more : List (Step World)) → Grows true steps (steps ++ more)
  Grows-append [] [] = tt
  Grows-append [] (_ ∷ _) = refl
  Grows-append (s ∷ steps) more = (refl, λ h. h, Grows-append steps more)

  Grows-trans :
      (free : Bool) (steps more most : List (Step World))
      → Grows free steps more
      → Grows free more most
      → Grows free steps most
  Grows-trans free [] more [] h k = tt
  Grows-trans free [] [] (_ ∷ _) h k = k
  Grows-trans free [] (_ ∷ _) (_ ∷ _) h k = h
  Grows-trans free (_ ∷ _) [] most h k = absurd h
  Grows-trans free (_ ∷ _) (_ ∷ _) [] h k = absurd k
  Grows-trans free (s ∷ steps) (t ∷ more) (u ∷ most) (d, g, h) (e, f, k) =
      (e ∙ d, λ x. f (g x), Grows-trans free steps more most h k)

  Grows-weaken :
      (free more_free : Bool) (steps more : List (Step World))
      → (free ≡ true → more_free ≡ true)
      → Grows free steps more
      → Grows more_free steps more
  Grows-weaken free more_free [] [] f h = tt
  Grows-weaken free more_free [] (_ ∷ _) f h = f h
  Grows-weaken free more_free (_ ∷ _) [] f h = absurd h
  Grows-weaken free more_free (s ∷ steps) (t ∷ more) f (d, g, h) =
      (d, g, Grows-weaken free more_free steps more f h)

  -- An open stack may only become sealed; a sealed one takes no step.
  Grown : Stack World → Stack World → Type 0
  Grown s t = (s.sealed ≡ true → t.sealed ≡ true) × Grows (not s.sealed) s.steps t.steps

  step_advance :
      (sealed after : Bool) (s t : Step World)
      → (sealed ≡ true → after ≡ true)
      → t.descriptor ≡ s.descriptor
      → (s.succeeded ≡ true → t.succeeded ≡ true)
      → validate_step_advance (record_of sealed s) (record_of after t) ≡ ok tt
  unfolding validate_step_advance
  step_advance sealed after s t f d g = ground (arith, beq_refl s.descriptor)

  steps_advance :
      (sealed after free : Bool) (steps more : List (Step World))
      → (sealed ≡ true → after ≡ true)
      → Grows free steps more
      → validate_steps_advance (map (record_of sealed) steps) (map (record_of after) more) ≡ ok tt
  unfolding validate_steps_advance
  steps_advance sealed after free [] more f g = refl
  steps_advance sealed after free (s ∷ steps) [] f g = absurd g
  steps_advance sealed after free (s ∷ steps) (t ∷ more) f (d, g, h) =
      rw
        (
          validate_steps_advance,
          step_advance sealed after s t f d g,
          steps_advance sealed after free steps more f h,
        )
        refl

  no_shorter :
      (free : Bool) (steps more : List (Step World)) (f g : Step World → Record)
      → Grows free steps more
      → ltb (length (map g more)) (length (map f steps)) ≡ false
  no_shorter free [] more f g h = ground arith
  no_shorter free (s ∷ steps) [] f g h = absurd h
  no_shorter free (s ∷ steps) (t ∷ more) f g (d, k, h) =
      ground (arith, no_shorter free steps more f g h)

  no_longer :
      (free : Bool) (steps more : List (Step World)) (f g : Step World → Record)
      → free ≡ false
      → Grows free steps more
      → ltb (length (map f steps)) (length (map g more)) ≡ false
  no_longer free [] [] f g n h = ground arith
  no_longer free [] (t ∷ more) f g n h = cc
  no_longer free (s ∷ steps) [] f g n h = absurd h
  no_longer free (s ∷ steps) (t ∷ more) f g n (d, k, h) =
      ground (arith, no_longer free steps more f g n h)

  none_started :
      (sealed : Bool) (steps : List (Step World))
      → sealed ≡ false
      → any (λ (r : Record). r.started) (map (record_of sealed) steps) ≡ false
  none_started sealed [] h = refl
  none_started sealed (s ∷ steps) h = ground (arith, none_started sealed steps h)

  not_both :
      (s t : Stack World)
      → Grows (not s.sealed) s.steps t.steps
      → (ltb (length (snapshot s)) (length (snapshot t))
          && any (λ (r : Record). r.started) (snapshot s))
        ≡ false
  unfolding snapshot
  not_both s t h =
      and_false (ltb (length (snapshot s)) (length (snapshot t)))
        (any (λ (r : Record). r.started) (snapshot s)) s.sealed
        (λ sealed.
          no_longer (not s.sealed) s.steps t.steps (record_of s.sealed) (record_of t.sealed)
            (ap not sealed) h)
        (none_started s.sealed s.steps)

  push-Grown :
      (s : Stack World) (d : Descriptor) (inverse : Option (Inverse World))
      → s.sealed ≡ false
      → Grown s (push s d inverse).0
  unfolding Grown
  push-Grown s d inverse free = elim (push_cases s d inverse) [
    | inl e ↦ rw e (λ h. h, Grows-refl (not s.sealed) s.steps)
    | inr (run, v, n, e) ↦ rw e (λ h. h, rw free (Grows-append s.steps (step_of d run ∷ [])))
  ]

  apply-Grown : (s : Stack World) (world : World) (c : Call World) → Grown s (apply s world c).0
  unfolding Grown begin
  apply-Grown s world (pushes d inverse) = elim (Bool-cases s.sealed) [
    | inl sealed ↦ rw (push_sealed s d inverse sealed) (λ h. h, Grows-refl (not s.sealed) s.steps)
    | inr free ↦ push-Grown s d inverse free
  ]
  apply-Grown s world begins = (λ h. refl, Grows-refl (not s.sealed) s.steps)
  apply-Grown s world (runs primary) = (
    λ h. run_stack_sealed s primary world,
    Grows-Later (not s.sealed) s.steps (run_stack s primary world).0.steps
        (run_stack-Later s primary world),
  )

  Grown-trans : (s t u : Stack World) → Grown s t → Grown t u → Grown s u
  unfolding Grown
  Grown-trans s t u (f, g) (h, k) = (
    λ x. h (f x),
    Grows-trans (not s.sealed) s.steps t.steps u.steps g
        (Grows-weaken (not t.sealed) (not s.sealed) t.steps u.steps (flip s.sealed t.sealed f) k),
  )

  Grown-advance :
      (s t : Stack World) → Grown s t → validate_rollback_advance (snapshot s) (snapshot t) ≡ ok tt
  unfolding Grown validate_rollback_advance snapshot
  Grown-advance s t (f, g) =
      rw
        (
          no_shorter (not s.sealed) s.steps t.steps (record_of s.sealed) (record_of t.sealed) g,
          not_both s t g,
          steps_advance s.sealed t.sealed (not s.sealed) s.steps t.steps f g,
        )
        refl

  apply_all-Grown :
      (s : Stack World) (world : World) (calls : List (Call World))
      → Grown s (apply_all s world calls).0
  unfolding Grown
  apply_all-Grown s world [] = (λ h. h, Grows-refl (not s.sealed) s.steps)
  apply_all-Grown s world (c ∷ calls) =
      Grown-trans s (apply s world c).0 (apply_all s world (c ∷ calls)).0 (apply-Grown s world c)
        (apply_all-Grown (apply s world c).0 (apply s world c).1 calls)

  -- Of two snapshots of a stack, with any calls of Push, Begin and Run between them, the store accepts the
  -- later one in place of the earlier one.
  pub snapshot-advance :
      (s : Stack World) (world : World) (calls : List (Call World))
      → validate_rollback_advance (snapshot s) (snapshot (apply_all s world calls).0) ≡ ok tt
  snapshot-advance s world calls =
      Grown-advance s (apply_all s world calls).0 (apply_all-Grown s world calls)
