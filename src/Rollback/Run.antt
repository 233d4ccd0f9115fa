-- ===== src/Rollback/Run.antt =====
-- internal/rollback/rollback.go, Run. Steps stand in the order of their registration, and the loop goes from the last
-- to the first. An inverse runs without the mutex; while it runs the stack is sealed, so that no Push changes the steps, and marked
-- as running, so that no second Run touches them.
pub mod Laws
pub mod Retry
use mydocker.Base.{
  Bool, true, false, ◌==◌, List, [], ◌∷◌, ◌++◌, Option, none, some, is_none, is_empty, ◌&&◌,
  if◌then◌else◌,
}
use mydocker.Text.{Text, bytes}
use mydocker.Rollback.Diagnostic.{Error, malformed, reported}
use mydocker.Rollback.Record.{Descriptor, rollback_schema_version}
use mydocker.Rollback.Stack.{Inverse, Step, Stack, begin}

pub record StepFailure : Type 0 where
  pub descriptor : Descriptor
  pub error : Error

-- Report; a nil primary error is `none`.
pub record Report : Type 0 where
  pub primary : Option Text
  pub failures : List StepFailure

-- Report.Err is nil.
abbrev pub is_clean : Report → Bool
is_clean r = is_none r.primary && is_empty r.failures

abbrev pub concurrent : StepFailure
concurrent = record {
  descriptor = record {
    version = rollback_schema_version;
    name = bytes "stack";
    action = bytes "rollback";
    target = bytes "concurrent";
    metadata = [];
  };
  error = malformed "rollback is already running";
}

module _ {World : Type 0} where
  -- One turn of the loop.
  unfoldable pub run_step : Step World → World → Step World × List StepFailure × World
  run_step s world =
      if s.succeeded
      then (s, [], world)
      else let (after, failure) = s.inverse world in
        elim failure [
          | none ↦ (record s { succeeded = true }, [], after)
          | some e ↦ (s, record { descriptor = s.descriptor; error = reported e } ∷ [], after)
        ]

  unfoldable pub run_steps :
      List (Step World) → World → List (Step World) × List StepFailure × World
  unfolding run_step
  run_steps [] world = ([], [], world)
  run_steps (s ∷ steps) world =
      let (rest, failures, later) = run_steps steps world in
      let (first, failure, end) = run_step s later in (first ∷ rest, failures ++ failure, end)

  unfoldable pub run_stack : Stack World → Option Text → World → Stack World × Report × World
  unfolding begin run_steps
  run_stack s primary world =
      if s.running
      then (begin s, record { primary = primary; failures = concurrent ∷ [] }, world)
      else let (steps, failures, end) = run_steps s.steps world in
        (
          record { steps = steps; sealed = true; running = false },
          record { primary = primary; failures = failures },
          end,
        )
