-- ===== src/Rollback/Stack/Laws.antt =====
-- Registration: the stack keeps distinct names, and takes nothing once it is sealed.
use mydocker.Base.{
  ◌≡◌, ◌↔◌, ◌⊎◌, inl, inr, refl, false, ◌||◌, List, [], ◌∷◌, ◌++◌, Option, none, some, ok, arith,
}
use mydocker.Text.{Text, text_eq}
use mydocker.Rollback.Record.{Descriptor, validate_descriptor}
use mydocker.Rollback.Stack.{Inverse, Step, Stack, is_registered, push}

-- Each step has a valid descriptor, and no name stands twice.
abbrev pub AreSteps : {World : Type 0} → List (Step World) → Type 0
AreSteps [] = Unit
AreSteps (s ∷ steps) =
    (validate_descriptor s.descriptor ≡ ok tt)
    × (is_registered s.descriptor.name steps ≡ false)
    × AreSteps steps

module _ {World : Type 0} where
  abbrev pub step_of : Descriptor → Inverse World → Step World
  step_of d run = record { descriptor = d; inverse = run; succeeded = false }

  -- Push succeeds exactly on an open stack, for a valid descriptor with a new name and an inverse that is
  -- not nil; it puts the step behind the others.
  pub push-eq-ok :
      (s : Stack World) (d : Descriptor) (inverse : Option (Inverse World)) {t : Stack World}
      → (push s d inverse ≡ (t, ok tt)) ↔ (
          (run : Inverse World) × (inverse ≡ some run)
          × (validate_descriptor d ≡ ok tt)
          × (s.sealed ≡ false)
          × (is_registered d.name s.steps ≡ false)
          × (t ≡ record s { steps = s.steps ++ step_of d run ∷ [] }))
  unfolding push
  push-eq-ok s d none = (λ h. ground arith, λ h. ground arith)
  push-eq-ok s d (some run) =
      (λ h. (run, refl, ground arith, ground arith, ground arith, ground arith), λ h. ground arith)

  registered_append :
      (name : Text) (steps more : List (Step World))
      → is_registered name (steps ++ more) ≡ (is_registered name steps || is_registered name more)
  registered_append name [] more = refl
  registered_append name (s ∷ steps) more = ground (arith, registered_append name steps more)

  AreSteps-append :
      (steps : List (Step World)) (s : Step World)
      → AreSteps steps
      → validate_descriptor s.descriptor ≡ ok tt
      → is_registered s.descriptor.name steps ≡ false
      → AreSteps (steps ++ s ∷ [])
  AreSteps-append [] s h v n = (v, refl, tt)
  AreSteps-append (a ∷ steps) s h v n = (
    h.0,
    ground (arith, registered_append a.descriptor.name steps (s ∷ [])),
    AreSteps-append steps s (more h) v (ground arith),
  )
    where
      more : AreSteps (a ∷ steps) → AreSteps steps
      more (_, _, rest) = rest

  pub push_cases :
      (s : Stack World) (d : Descriptor) (inverse : Option (Inverse World))
      → ((push s d inverse).0 ≡ s)
        ⊎ ((run : Inverse World) × (validate_descriptor d ≡ ok tt)
            × (is_registered d.name s.steps ≡ false)
            × ((push s d inverse).0 ≡ record s { steps = s.steps ++ step_of d run ∷ [] }))
  unfolding push
  push_cases s d none = inl (ground arith)
  push_cases s d (some run) =
      let cases : ((push s d (some run)).0 ≡ s)
          ⊎ ((validate_descriptor d ≡ ok tt)
              × (is_registered d.name s.steps ≡ false)
              × ((push s d (some run)).0 ≡ record s { steps = s.steps ++ step_of d run ∷ [] })) =
        ground arith in
      elim cases [ inl e ↦ inl e | inr (v, n, e) ↦ inr (run, v, n, e) ]

  -- Push keeps the descriptors valid and the names distinct.
  pub push-AreSteps :
      (s : Stack World) (d : Descriptor) (inverse : Option (Inverse World))
      → AreSteps s.steps
      → AreSteps (push s d inverse).0.steps
  push-AreSteps s d inverse h = elim (push_cases s d inverse) [
    | inl e ↦ rw e h
    | inr (run, v, n, e) ↦ rw e (AreSteps-append s.steps (step_of d run) h v n)
  ]
