-- ===== src/Rollback/Examples.antt =====
-- The theorems of the rollback at a stack of two inverses, of which the newer fails at first.
use mydocker.Base.{
  ◌≡◌, refl, true, false, List, [], ◌∷◌, map, none, some, ok, length, if◌then◌else◌, contains, ◌==◌,
}
use mydocker.Text.{Text, bytes, text_eq, valid_utf8, Text-discrete}
use mydocker.Text.Trim.{trim_space}
use mydocker.Text.Repair.{to_valid_utf8}
use mydocker.Text.Json.{json_valid}
use mydocker.Operation.Vocabulary.{internal}
use mydocker.Rollback.Diagnostic.{bounded_diagnostic, Cause}
use mydocker.Rollback.Record.{Descriptor, Record, validate_descriptor}
use mydocker.Rollback.Stack.{Inverse, Stack, pending, snapshot}
use mydocker.Rollback.Stack.Laws.{AreSteps}
use mydocker.Rollback.Run.{run_stack}
use mydocker.Rollback.Run.Laws.{
  newest_first, call_each, effect, failed, descriptor, Later, run_stack-newest_first,
}
use mydocker.Rollback.Run.Retry.{Call, pushes, runs, apply_all, run_stack-pending, apply_all_sealed}
use mydocker.Rollback.Recovery.{Resolver, restore}
use mydocker.Rollback.Recovery.Laws.{Resolves, restore-run}

-- The world: the names of the inverses called, the last one first.
abbrev World : Type 0
World = List Text

abbrev named : Text → Descriptor
named name = record {
  version = 1;
  name = name;
  action = bytes "delete";
  target = bytes "c-1";
  metadata = bytes "{}";
}

-- An inverse that always succeeds, and one that fails the first time.
abbrev release : Text → Inverse World
release name world = (name ∷ world, none)

abbrev retried : Text → Inverse World
retried name world = (name ∷ world, if contains name world then none else some (bytes "busy"))

abbrev two_steps : Stack World
two_steps = record {
  steps =
      record {
        descriptor = named (bytes "cgroup");
        inverse = release (bytes "cgroup");
        succeeded = false;
      }
      ∷ record {
        descriptor = named (bytes "mount");
        inverse = retried (bytes "mount");
        succeeded = false;
      }
      ∷ [];
  sealed = true;
  running = false;
}

abbrev resolver : Resolver World
resolver d =
    if d.name == bytes "mount"
    then ok (some (retried (bytes "mount")))
    else ok (some (release d.name))

-- What the examples open.
unfoldable opened : Unit {0}
unfolding validate_descriptor trim_space json_valid Text-discrete contains run_stack
    bounded_diagnostic valid_utf8 to_valid_utf8
opened = tt

two_steps-AreSteps : AreSteps two_steps.steps
unfolding opened
two_steps-AreSteps = (refl, refl, (refl, refl, tt))

abbrev cause_of_busy : Cause
cause_of_busy = record { reason = internal; message = bounded_diagnostic (bytes "busy") }

abbrev pending_record : Record
pending_record = record {
  descriptor = named (bytes "mount");
  succeeded = false;
  started = true;
  attempts = 0;
  last_error = [];
}

newest_first_example : effect two_steps none [] ≡ call_each (newest_first two_steps.steps) []
newest_first_example = run_stack-newest_first two_steps none [] refl

run_pending_example :
    (map failed (run_stack two_steps none []).1.failures
      ≡ map descriptor (newest_first (run_stack two_steps none []).0.steps))
    × (pending (run_stack two_steps none []).0 ≡ length (run_stack two_steps none []).1.failures)
    × ((run_stack two_steps none []).0.sealed ≡ true)
    × ((run_stack two_steps none []).0.running ≡ false)
run_pending_example = run_stack-pending two_steps none [] refl

-- The stack behind its first run: the newer step has failed once, and succeeds when it is called again.
abbrev failed_once_world : World
failed_once_world = bytes "cgroup" ∷ bytes "mount" ∷ []

abbrev calls : List (Call World)
calls = runs none ∷ pushes (named (bytes "veth")) (some (release (bytes "veth"))) ∷ runs none ∷ []

sealed_example :
    ((apply_all two_steps [] calls).0.sealed ≡ true)
    × Later two_steps.steps (apply_all two_steps [] calls).0.steps
sealed_example = apply_all_sealed two_steps [] calls refl

two_steps-Resolves : Resolves resolver two_steps.steps
unfolding opened
two_steps-Resolves = (λ h. refl, (λ h. refl, tt))

restore_run_example :
    (t : Stack World) × (restore (snapshot two_steps) (some resolver) ≡ ok t)
    × (effect t none [] ≡ effect two_steps none [])
restore_run_example =
    restore-run two_steps resolver none [] refl refl two_steps-AreSteps two_steps-Resolves
