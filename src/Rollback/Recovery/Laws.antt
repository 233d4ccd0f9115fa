-- ===== src/Rollback/Recovery/Laws.antt =====
-- A restored stack cleans up as the one that was saved.
use mydocker.Base.{
  ◌≡◌, refl, sym, ap, ◌∙◌, true, false, not, is_empty, Bool-cases, inl, inr, List, [], ◌∷◌, map,
  Option, some, ok, arith, contains, if◌then◌else◌,
}
use mydocker.Text.{Text, text_eq}
use mydocker.Rollback.Record.{validate_descriptor, validate_record}
use mydocker.Rollback.Stack.{Step, Stack, is_registered, record_of, snapshot}
use mydocker.Rollback.Stack.Laws.{AreSteps}
use mydocker.Rollback.Run.Laws.{newest_first, call_each, run_stack-newest_first, effect}
use mydocker.Rollback.Recovery.{Resolver, no_op, resolve_inverse, restore_steps, restore}

module _ {World : Type 0} where
  -- The resolver answers the inverse of every step that has not succeeded.
  abbrev pub Resolves : Resolver World → List (Step World) → Type 0
  Resolves resolve [] = Unit
  Resolves resolve (s ∷ steps) =
      (s.succeeded ≡ false → resolve s.descriptor ≡ ok (some s.inverse)) × Resolves resolve steps

  -- A step as it is restored: one that has succeeded has no inverse to run.
  abbrev pub restored : Step World → Step World
  restored s = record s { inverse = if s.succeeded then no_op else s.inverse }

  abbrev Unseen : List Text → List (Step World) → Type 0
  Unseen seen [] = Unit
  Unseen seen (s ∷ steps) = (contains s.descriptor.name seen ≡ false) × Unseen seen steps

  Unseen-more :
      (name : Text) (seen : List Text) (steps : List (Step World))
      → Unseen seen steps
      → is_registered name steps ≡ false
      → Unseen (name ∷ seen) steps
  unfolding contains
  Unseen-more name seen [] h n = tt
  Unseen-more name seen (s ∷ steps) h n =
      (ground arith, Unseen-more name seen steps (rest h) (ground arith))
    where
      rest : Unseen seen (s ∷ steps) → Unseen seen steps
      rest (_, r) = r

  validate-record_of :
      (s : Step World)
      → validate_descriptor s.descriptor ≡ ok tt
      → validate_record (record_of true s) ≡ ok tt
  unfolding validate_record
  validate-record_of s h = ground arith

  resolve-record_of :
      (resolve : Resolver World) (s : Step World)
      → (s.succeeded ≡ false → resolve s.descriptor ≡ ok (some s.inverse))
      → resolve_inverse (some resolve) (record_of true s) ≡ ok (restored s).inverse
  unfolding resolve_inverse
  resolve-record_of resolve s h = elim (Bool-cases s.succeeded) [
    | inl done ↦ rw done refl
    | inr left ↦ rw (left, h left) refl
  ]

  restore-records :
      (resolve : Resolver World) (seen : List Text) (steps : List (Step World))
      → AreSteps steps
      → Unseen seen steps
      → Resolves resolve steps
      → restore_steps (some resolve) seen (map (record_of true) steps)
        ≡ ok (map restored steps, not (is_empty steps))
  unfolding restore_steps
  restore-records resolve seen [] a u r = refl
  restore-records resolve seen (s ∷ steps) (v, n, more) (fresh, others) (known, rest) =
      rw
        (
          restore_steps,
          validate-record_of s v,
          fresh,
          resolve-record_of resolve s known,
          restore-records resolve (s.descriptor.name ∷ seen) steps more
              (Unseen-more s.descriptor.name seen steps others n) rest,
        )
        refl

  newest_restored :
      (steps : List (Step World)) → newest_first (map restored steps) ≡ newest_first steps
  newest_restored [] = refl
  newest_restored (s ∷ steps) = elim (Bool-cases s.succeeded) [
    | inl done ↦ rw (done, newest_restored steps) refl
    | inr left ↦ rw (left, newest_restored steps) refl
  ]

  abbrev pub recovered : Stack World → Stack World
  recovered s = record {
    steps = map restored s.steps;
    sealed = not (is_empty s.steps);
    running = false;
  }

  Unseen-nil : (steps : List (Step World)) → Unseen [] steps
  unfolding contains
  Unseen-nil [] = tt
  Unseen-nil (s ∷ steps) = (refl, Unseen-nil steps)

  -- The snapshot of a sealed stack of valid descriptors with distinct names is restored, given a resolver
  -- that answers the inverse of every pending step: each step has its descriptor and its success again,
  -- and its inverse where it is pending; the stack is sealed again unless it has no step.
  pub restore-snapshot :
      (s : Stack World) (resolve : Resolver World)
      → s.sealed ≡ true
      → AreSteps s.steps
      → Resolves resolve s.steps
      → restore (snapshot s) (some resolve) ≡ ok (recovered s)
  unfolding restore snapshot
  restore-snapshot s resolve sealed a r =
      rw (sealed, restore-records resolve [] s.steps a (Unseen-nil s.steps) r) refl

  -- The snapshot of a sealed stack of valid descriptors with distinct names, on which no Run is under way,
  -- is restored by a resolver that answers the inverse of every pending step; a Run of the restored stack
  -- then fails in the same steps with the same errors as a Run of the stack that was saved, and leaves
  -- the same world.
  pub restore-run :
      (s : Stack World) (resolve : Resolver World) (primary : Option Text) (world : World)
      → s.sealed ≡ true
      → s.running ≡ false
      → AreSteps s.steps
      → Resolves resolve s.steps
      → (t : Stack World) × (restore (snapshot s) (some resolve) ≡ ok t)
        × (effect t primary world ≡ effect s primary world)
  restore-run s resolve primary world sealed idle a r = (
    recovered s,
    restore-snapshot s resolve sealed a r,
    run_stack-newest_first (recovered s) primary world refl
        ∙ ap (λ steps. call_each steps world) (newest_restored s.steps)
        ∙ sym (run_stack-newest_first s primary world idle),
  )
