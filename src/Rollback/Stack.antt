-- ===== src/Rollback/Stack.antt =====
-- internal/rollback/rollback.go: the stack and its methods but Run and Restore. An inverse is a function from the
-- state of the world to the next and its error, by its message; a nil inverse is `none`. The
-- methods hold the mutex throughout.
pub mod Laws
use mydocker.Base.{
  ℕ, ◌+◌, Bool, true, false, ◌||◌, ◌==◌, List, [], ◌∷◌, ◌++◌, map, Option, none, some, Result, ok,
  err, any, if◌then◌else◌,
}
use mydocker.Text.{Text, text_eq}
use mydocker.Rollback.Diagnostic.{Error, malformed, Check}
use mydocker.Rollback.Record.{Descriptor, validate_descriptor, Record}

module _ (World : Type 0) where
  abbrev pub Inverse : Type 0
  Inverse = World → World × Option Text

pub record Step (World : Type 0) : Type 0 where
  pub descriptor : Descriptor
  pub inverse : Inverse World
  pub succeeded : Bool

pub record Stack (World : Type 0) : Type 0 where
  pub steps : List (Step World)
  pub sealed : Bool
  pub running : Bool

module _ {World : Type 0} where
  abbrev pub new_stack : Stack World
  new_stack = record { steps = []; sealed = false; running = false }

  abbrev pub is_registered : Text → List (Step World) → Bool
  is_registered name = any (λ (s : Step World). s.descriptor.name == name)

  unfoldable pub push : Stack World → Descriptor → Option (Inverse World) → Stack World × Check
  push s d inverse = elim (validate_descriptor d) [
    | err e ↦ (s, err e)
    | ok _ ↦ elim inverse [
      | none ↦ (s, err (malformed "rollback inverse"))
      | some run ↦
          if s.sealed
          then (s, err (malformed "rollback has started"))
          else if is_registered d.name s.steps
          then (s, err (malformed "rollback step name"))
          else (
            record s {
              steps = s.steps ++ record { descriptor = d; inverse = run; succeeded = false } ∷ [];
            },
            ok tt,
          )
    ]
  ]

  unfoldable pub begin : Stack World → Stack World
  begin s = record s { sealed = true }

  abbrev pub record_of : Bool → Step World → Record
  record_of sealed s = record {
    descriptor = s.descriptor;
    succeeded = s.succeeded;
    started = sealed;
    attempts = 0;
    last_error = [];
  }

  unfoldable pub snapshot : Stack World → List Record
  snapshot s = map (record_of s.sealed) s.steps

  unfoldable pub count_pending : List (Step World) → ℕ
  count_pending [] = 0
  count_pending (s ∷ steps) = if s.succeeded then count_pending steps else count_pending steps + 1

  unfoldable pub pending : Stack World → ℕ
  unfolding count_pending
  pending s = count_pending s.steps
