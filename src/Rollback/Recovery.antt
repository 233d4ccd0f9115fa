-- ===== src/Rollback/Recovery.antt =====
-- internal/rollback/rollback.go, Restore. A nil resolver is `none`; one that is there answers an inverse, nil, or an error.
pub mod Laws
use mydocker.Base.{
  Bool, true, false, ◌||◌, List, [], ◌∷◌, Option, none, some, Result, ok, err, contains,
  if◌then◌else◌, ◌>>=◌,
}
use mydocker.Text.{Text, text_eq}
use mydocker.Rollback.Diagnostic.{Error, malformed}
use mydocker.Rollback.Record.{Descriptor, Record, validate_record}
use mydocker.Rollback.Stack.{Inverse, Step, Stack}

abbrev pub Resolver : Type 0 → Type 0
Resolver World = Descriptor → Result Text (Option (Inverse World))

module _ {World : Type 0} where
  abbrev pub no_op : Inverse World
  no_op world = (world, none)

  unfoldable pub resolve_inverse : Option (Resolver World) → Record → Result Error (Inverse World)
  resolve_inverse resolver r = if r.succeeded then ok no_op else elim resolver [
    | none ↦ err (malformed "rollback resolver")
    | some resolve ↦ elim (resolve r.descriptor) [
      | err e ↦ err (malformed "resolve rollback step")
      | ok none ↦ err (malformed "nil inverse")
      | ok (some inverse) ↦ ok inverse
    ]
  ]

  -- The loop over the records, with the names already seen; its steps and seal are those from here on.
  unfoldable pub restore_steps :
      Option (Resolver World) → List Text → List Record → Result Error (List (Step World) × Bool)
  unfolding resolve_inverse
  restore_steps resolver seen [] = ok ([], false)
  restore_steps resolver seen (r ∷ records) = elim (validate_record r) [
    | err e ↦ err e
    | ok _ ↦ if contains r.descriptor.name seen then err (malformed "rollback step name") else do
      inverse ← resolve_inverse resolver r
      (steps, sealed) ← restore_steps resolver (r.descriptor.name ∷ seen) records
      ok (
        record { descriptor = r.descriptor; inverse = inverse; succeeded = r.succeeded } ∷ steps,
        r.started || sealed,
      )
  ]

  unfoldable pub restore : List Record → Option (Resolver World) → Result Error (Stack World)
  unfolding restore_steps
  restore records resolver = do
    (steps, sealed) ← restore_steps resolver [] records
    ok (record { steps = steps; sealed = sealed; running = false })
