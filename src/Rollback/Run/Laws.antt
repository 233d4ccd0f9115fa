-- ===== src/Rollback/Run/Laws.antt =====
-- A run calls the pending inverses once each, newest first, and leaves pending those that fail.
use mydocker.Base.{
  ◌≡◌, refl, true, false, List, [], ◌∷◌, ◌++◌, map, Option, none, some, arith, length,
  length-append, if◌then◌else◌,
}
use mathlib.Core.List.{append_assoc, map-append}
use mydocker.Text.{Text}
use mydocker.Rollback.Diagnostic.{reported}
use mydocker.Rollback.Record.{Descriptor}
use mydocker.Rollback.Stack.{Step, Stack, count_pending}
use mydocker.Rollback.Run.{StepFailure, Report, run_step, run_steps, run_stack}

abbrev pub failed : StepFailure → Descriptor
failed f = f.descriptor

module _ {World : Type 0} where
  -- The steps that have not succeeded, the last registered first.
  abbrev pub newest_first : List (Step World) → List (Step World)
  newest_first [] = []
  newest_first (s ∷ steps) = newest_first steps ++ (if s.succeeded then [] else s ∷ [])

  abbrev pub failure_of : Step World → Option Text → List StepFailure
  failure_of s none = []
  failure_of s (some e) = record { descriptor = s.descriptor; error = reported e } ∷ []

  -- Each inverse is called once, in the order of the list, also behind one that fails.
  abbrev pub call_each : List (Step World) → World → List StepFailure × World
  call_each [] world = ([], world)
  call_each (s ∷ steps) world =
      let (after, failure) = s.inverse world in
      let (failures, end) = call_each steps after in (failure_of s failure ++ failures, end)

  call_each-append :
      (xs ys : List (Step World)) (world : World)
      → call_each (xs ++ ys) world ≡ (
        (call_each xs world).0 ++ (call_each ys (call_each xs world).1).0,
        (call_each ys (call_each xs world).1).1,
      )
  call_each-append [] ys world = refl
  call_each-append (x ∷ xs) ys world =
      let after = (x.inverse world).0 in
      rw
        (
          call_each-append xs ys after,
          append_assoc (failure_of x (x.inverse world).1) (call_each xs after).0
              (call_each ys (call_each xs after).1).0,
        )
        refl

  run_step-call :
      (s : Step World) (world : World)
      → ((run_step s world).1, (run_step s world).2)
        ≡ call_each (if s.succeeded then [] else s ∷ []) world
  unfolding run_step
  run_step-call s world = ground arith

  run_steps-call :
      (steps : List (Step World)) (world : World)
      → ((run_steps steps world).1, (run_steps steps world).2)
        ≡ call_each (newest_first steps) world
  unfolding run_steps
  run_steps-call [] world = refl
  run_steps-call (s ∷ steps) world =
      rw
        (
          call_each-append (newest_first steps) (if s.succeeded then [] else s ∷ []) world,
          ← run_steps-call steps world,
          ← run_step-call s (run_steps steps world).2,
        )
        refl

  -- The failures that a Run reports, and the world that it leaves.
  abbrev pub effect : Stack World → Option Text → World → List StepFailure × World
  effect s primary world = ((run_stack s primary world).1.failures, (run_stack s primary world).2)

  -- A Run while no other Run is under way calls each pending inverse once, the newest first, and goes on behind
  -- one that fails: its failures, and the world it leaves, are those of calling them in this order.
  pub run_stack-newest_first :
      (s : Stack World) (primary : Option Text) (world : World)
      → s.running ≡ false
      → effect s primary world ≡ call_each (newest_first s.steps) world
  unfolding run_stack
  run_stack-newest_first s primary world h = rw h (run_steps-call s.steps world)

  abbrev pub descriptor : Step World → Descriptor
  descriptor s = s.descriptor

  run_step-failed :
      (s : Step World) (world : World)
      → map failed (run_step s world).1
        ≡ map descriptor (if (run_step s world).0.succeeded then [] else (run_step s world).0 ∷ [])
  unfolding run_step
  run_step-failed s world = ground arith

  pub run_steps-failed :
      (steps : List (Step World)) (world : World)
      → map failed (run_steps steps world).1
        ≡ map descriptor (newest_first (run_steps steps world).0)
  unfolding run_steps
  run_steps-failed [] world = refl
  run_steps-failed (s ∷ steps) world =
      let later = (run_steps steps world).2 in
      rw
        (
          map-append failed (run_steps steps world).1 (run_step s later).1,
          map-append descriptor (newest_first (run_steps steps world).0)
              (if (run_step s later).0.succeeded then [] else (run_step s later).0 ∷ []),
          run_steps-failed steps world,
          run_step-failed s later,
        )
        refl

  pub count_newest : (steps : List (Step World)) → count_pending steps ≡ length (newest_first steps)
  unfolding count_pending
  count_newest [] = refl
  count_newest (s ∷ steps) = ground (
    arith,
    count_newest steps,
    length-append (newest_first steps) (if s.succeeded then [] else s ∷ []),
  )

  -- What a run keeps of the steps: their descriptors, and each success.
  abbrev pub Later : List (Step World) → List (Step World) → Type 0
  Later [] [] = Unit
  Later (s ∷ steps) (t ∷ rest) =
      (t.descriptor ≡ s.descriptor)
      × (t.inverse ≡ s.inverse)
      × (s.succeeded ≡ true → t.succeeded ≡ true)
      × Later steps rest
  Later _ _ = ⊥

  run_step-Later :
      (s : Step World) (world : World)
      → ((run_step s world).0.descriptor ≡ s.descriptor)
        × ((run_step s world).0.inverse ≡ s.inverse)
        × (s.succeeded ≡ true → (run_step s world).0.succeeded ≡ true)
  unfolding run_step
  run_step-Later s world = (ground arith, ground arith, λ h. ground arith)

  pub run_steps-Later :
      (steps : List (Step World)) (world : World) → Later steps (run_steps steps world).0
  unfolding run_steps
  run_steps-Later [] world = tt
  run_steps-Later (s ∷ steps) world =
      let (same, kept, grown) = run_step-Later s (run_steps steps world).2 in
      (same, kept, grown, run_steps-Later steps world)

  pub none_pending :
      (steps : List (Step World)) (world : World)
      → count_pending steps ≡ 0
      → run_steps steps world ≡ (steps, [], world)
  unfolding run_steps count_pending
  none_pending [] world h = refl
  none_pending (s ∷ steps) world h =
      let done : s.succeeded ≡ true = ground arith in
      let rest : count_pending steps ≡ 0 = ground arith in
      rw (none_pending steps world rest, done) refl

  -- A run that no other run precedes.
  abbrev pub run_open : Stack World → Option Text → World → Stack World × Report × World
  run_open s primary world =
      let (steps, failures, end) = run_steps s.steps world in
      (
        record { steps = steps; sealed = true; running = false },
        record { primary = primary; failures = failures },
        end,
      )

  pub run_stack_open :
      (s : Stack World) (primary : Option Text) (world : World)
      → s.running ≡ false
      → run_stack s primary world ≡ run_open s primary world
  unfolding run_stack
  run_stack_open s primary world h = rw h refl
