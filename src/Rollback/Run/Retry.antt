-- ===== src/Rollback/Run/Retry.antt =====
-- A run after a run, and the stack over any sequence of calls.
use mydocker.Base.{
  ◌≡◌, refl, true, false, List, [], ◌∷◌, map, Option, none, some, arith, Bool-cases, inl, inr,
  length, sym, ap, ◌∙◌,
}
use mydocker.Text.{Text, text_eq}
use mydocker.Rollback.Record.{Descriptor}
use mydocker.Rollback.Stack.{
  Inverse, Step, Stack, is_registered, count_pending, pending, push, begin,
}
use mydocker.Rollback.Stack.Laws.{AreSteps, push-AreSteps}
use mydocker.Rollback.Run.{StepFailure, Report, run_steps, run_stack}
use mydocker.Rollback.Run.Laws.{
  newest_first, descriptor, failed, run_steps-failed, count_newest, Later, run_steps-Later,
  none_pending, run_open, run_stack_open,
}

length-map : {A B : Type 0} (f : A → B) (xs : List A) → length (map f xs) ≡ length xs
length-map f [] = refl
length-map f (x ∷ xs) = omega (arith, length-map f xs)

-- The calls on a stack: Push, Begin and Run.
pub data Call (World : Type 0) : Type 0 where
  pushes : Descriptor → Option (Inverse World) → Call World
  begins : Call World
  runs : Option Text → Call World

module _ {World : Type 0} where
  abbrev pub apply : Stack World → World → Call World → Stack World × World
  apply s world (pushes d inverse) = ((push s d inverse).0, world)
  apply s world begins = (begin s, world)
  apply s world (runs primary) = ((run_stack s primary world).0, (run_stack s primary world).2)

  abbrev pub apply_all : Stack World → World → List (Call World) → Stack World × World
  apply_all s world [] = (s, world)
  apply_all s world (c ∷ calls) = apply_all (apply s world c).0 (apply s world c).1 calls

  -- As many steps stay pending as fail.
  counted :
      (steps : List (Step World)) (world : World)
      → count_pending (run_steps steps world).0 ≡ length (run_steps steps world).1
  counted steps world =
      count_newest (run_steps steps world).0
      ∙ sym (length-map descriptor (newest_first (run_steps steps world).0))
      ∙ ap length (sym (run_steps-failed steps world))
      ∙ length-map failed (run_steps steps world).1

  -- A Run while no other Run is under way leaves pending exactly the steps that it reports, in the order of the
  -- report from the newest to the oldest; the stack is then sealed and open for the next Run.
  pub run_stack-pending :
      (s : Stack World) (primary : Option Text) (world : World)
      → s.running ≡ false
      → (map failed (run_stack s primary world).1.failures
          ≡ map descriptor (newest_first (run_stack s primary world).0.steps))
        × (pending (run_stack s primary world).0 ≡ length (run_stack s primary world).1.failures)
        × ((run_stack s primary world).0.sealed ≡ true)
        × ((run_stack s primary world).0.running ≡ false)
  unfolding pending
  run_stack-pending s primary world h =
      rw (run_stack_open s primary world h)
        (run_steps-failed s.steps world, counted s.steps world, refl, refl)

  -- Once a Run reports no failure, every later Run does nothing: it calls no inverse, and reports none.
  pub run_stack-again :
      (s : Stack World) (primary next : Option Text) (world later : World)
      → s.running ≡ false
      → (run_stack s primary world).1.failures ≡ []
      → run_stack (run_stack s primary world).0 next later
        ≡ ((run_stack s primary world).0, record { primary = next; failures = [] }, later)
  run_stack-again s primary next world later h e =
      let clean : (run_open s primary world).1.failures ≡ [] =
        ap (λ (o : Stack World × Report × World). o.1.failures)
          (sym (run_stack_open s primary world h))
        ∙ e in
      let none_left : count_pending (run_steps s.steps world).0 ≡ 0 =
        counted s.steps world ∙ ap length clean in
      rw (run_stack_open s primary world h) (
        run_stack_open (run_open s primary world).0 next later refl
        ∙ ap
            (λ (r : List (Step World) × List StepFailure × World). (
              record { steps = r.0; sealed = true; running = false },
              record { primary = next; failures = r.1 },
              r.2,
            ))
            (none_pending (run_steps s.steps world).0 later none_left))

  same_registered :
      (name : Text) (steps more : List (Step World))
      → Later steps more
      → is_registered name more ≡ is_registered name steps
  same_registered name [] [] h = refl
  same_registered name (s ∷ steps) (t ∷ more) h = ground (arith, same_registered name steps more, h)
  same_registered name [] (t ∷ more) h = absurd h
  same_registered name (s ∷ steps) [] h = absurd h

  Later-AreSteps :
      (steps more : List (Step World)) → Later steps more → AreSteps steps → AreSteps more
  Later-AreSteps [] [] l h = tt
  Later-AreSteps (s ∷ steps) (t ∷ more) l h = (
    ground arith,
    ground (arith, same_registered s.descriptor.name steps more),
    Later-AreSteps steps more (rest l) (others h),
  )
    where
      rest : Later (s ∷ steps) (t ∷ more) → Later steps more
      rest (_, _, _, r) = r

      others : AreSteps (s ∷ steps) → AreSteps steps
      others (_, _, r) = r
  Later-AreSteps [] (t ∷ more) l h = absurd l
  Later-AreSteps (s ∷ steps) [] l h = absurd l

  pub Later-refl : (steps : List (Step World)) → Later steps steps
  Later-refl [] = tt
  Later-refl (s ∷ steps) = (refl, refl, λ h. h, Later-refl steps)

  pub Later-trans :
      (steps more most : List (Step World)) → Later steps more → Later more most → Later steps most
  Later-trans [] [] [] h k = tt
  Later-trans [] [] (_ ∷ _) h k = absurd k
  Later-trans [] (_ ∷ _) most h k = absurd h
  Later-trans (_ ∷ _) [] most h k = absurd h
  Later-trans (_ ∷ _) (_ ∷ _) [] h k = absurd k
  Later-trans (s ∷ steps) (t ∷ more) (u ∷ most) (a, b, c, d) (e, f, g, i) =
      (e ∙ a, f ∙ b, λ x. g (c x), Later-trans steps more most d i)

  pub run_stack_sealed :
      (s : Stack World) (primary : Option Text) (world : World)
      → (run_stack s primary world).0.sealed ≡ true
  unfolding run_stack
  run_stack_sealed s primary world = elim (Bool-cases s.running) [
    | inl busy ↦ rw busy refl
    | inr idle ↦ rw idle refl
  ]

  pub run_stack-Later :
      (s : Stack World) (primary : Option Text) (world : World)
      → Later s.steps (run_stack s primary world).0.steps
  unfolding run_stack
  run_stack-Later s primary world = elim (Bool-cases s.running) [
    | inl busy ↦ rw busy (Later-refl s.steps)
    | inr idle ↦ rw idle (run_steps-Later s.steps world)
  ]

  apply-AreSteps :
      (s : Stack World) (world : World) (c : Call World)
      → AreSteps s.steps
      → AreSteps (apply s world c).0.steps
  unfolding begin
  apply-AreSteps s world (pushes d inverse) h = push-AreSteps s d inverse h
  apply-AreSteps s world begins h = h
  apply-AreSteps s world (runs primary) h =
      Later-AreSteps s.steps (run_stack s primary world).0.steps (run_stack-Later s primary world) h

  -- A stack of valid descriptors with distinct names stays one under any sequence of calls.
  pub apply_all-AreSteps :
      (s : Stack World) (world : World) (calls : List (Call World))
      → AreSteps s.steps
      → AreSteps (apply_all s world calls).0.steps
  apply_all-AreSteps s world [] h = h
  apply_all-AreSteps s world (c ∷ calls) h =
      apply_all-AreSteps (apply s world c).0 (apply s world c).1 calls (apply-AreSteps s world c h)

  pub push_sealed :
      (s : Stack World) (d : Descriptor) (inverse : Option (Inverse World))
      → s.sealed ≡ true
      → (push s d inverse).0 ≡ s
  unfolding push
  push_sealed s d none h = ground arith
  push_sealed s d (some run) h = ground arith

  pub apply_sealed :
      (s : Stack World) (world : World) (c : Call World)
      → s.sealed ≡ true
      → ((apply s world c).0.sealed ≡ true) × Later s.steps (apply s world c).0.steps
  unfolding begin
  apply_sealed s world (pushes d inverse) h = rw (push_sealed s d inverse h) (h, Later-refl s.steps)
  apply_sealed s world begins h = (refl, Later-refl s.steps)
  apply_sealed s world (runs primary) h =
      (run_stack_sealed s primary world, run_stack-Later s primary world)

  -- Once a stack is sealed it stays so under any sequence of calls: no step is added or removed, none
  -- changes its descriptor or its inverse, and one that has succeeded does not become pending again.
  pub apply_all_sealed :
      (s : Stack World) (world : World) (calls : List (Call World))
      → s.sealed ≡ true
      → ((apply_all s world calls).0.sealed ≡ true)
        × Later s.steps (apply_all s world calls).0.steps
  apply_all_sealed s world [] h = (h, Later-refl s.steps)
  apply_all_sealed s world (c ∷ calls) h =
      let (sealed, first) = apply_sealed s world c h in
      let (end, rest) = apply_all_sealed (apply s world c).0 (apply s world c).1 calls sealed in
      (
        end,
        Later-trans s.steps (apply s world c).0.steps (apply_all s world (c ∷ calls)).0.steps first
            rest,
      )
