-- ===== src/State/Examples.antt =====
-- The theorems of the state at concrete records.
use mydocker.Base.{◌≡◌, ◌⊎◌, inl, inr, refl, List, [], ◌∷◌, none, some, ok, Bool, ◌==◌}
use mydocker.Base.Int.{◌≤ℤ◌}
use mydocker.Text.{Text, bytes, text_eq}
use mydocker.Operation.Sample.{operation_opened}
use mydocker.Domain.Sample.{execution, life, stopped_execution-Valid, exited}
use mydocker.Domain.AttemptPhase
use mydocker.Domain.ContainerAttempt.Operations as PairOperations
use mydocker.Operation.Vocabulary
use mydocker.Operation.Record.{Operation}
use mydocker.Rollback.Stack.{Inverse, new_stack, snapshot}
use mydocker.Rollback.Run.Retry.{Call, pushes, runs, apply_all}
use mydocker.State.Advance.{
  validate_operation_advance, terminal_operation_update_allowed, operation_stage_rank,
  validate_container_attempt_advance,
}
use mydocker.State.Advance.Laws.{rank-Accepted, terminal-Accepted}
use mydocker.State.Advance.Methods.{pair-advance}
use mydocker.State.RollbackAdvance.{validate_rollback_advance}
use mydocker.State.RollbackAdvance.Laws.{snapshot-advance}

abbrev release : Inverse (List Text)
release world = (bytes "cgroup" ∷ world, none)

abbrev calls : List (Call (List Text))
calls =
    pushes
      (record {
        version = 1;
        name = bytes "cgroup";
        action = bytes "delete";
        target = bytes "c-1";
        metadata = [];
      })
      (some release)
    ∷ runs none
    ∷ []

snapshot-advance_example :
    validate_rollback_advance
      (snapshot (new_stack {World = List Text}))
      (snapshot (apply_all new_stack [] calls).0)
    ≡ ok tt
snapshot-advance_example = snapshot-advance new_stack [] calls

pair-advance_example :
    validate_container_attempt_advance
      (PairOperations.run execution life)
      (PairOperations.apply
        (PairOperations.run execution life)
        (PairOperations.moves AttemptPhase.absent exited)).0
    ≡ ok tt
pair-advance_example =
    pair-advance (PairOperations.run execution life)
      (PairOperations.moves AttemptPhase.absent exited) stopped_execution-Valid (inr refl)

abbrev decodes : Text → Bool
decodes payload = payload == bytes "{}"

abbrev stopping : Vocabulary.State → Vocabulary.Stage → Vocabulary.Outcome → Text → Operation
stopping state stage result response = record {
  version = 1;
  id = bytes "op-1";
  type = Vocabulary.stop;
  target = record { kind = Vocabulary.sandbox; id = bytes "demo" };
  fingerprint = record {
    version = 1;
    sha256 = bytes "0123456789abcdef0123456789abcdef0123456789abcdef0123456789abcdef";
  };
  state = state;
  stage = stage;
  result = result;
  reason = Vocabulary.reason_none;
  response = response;
}

abbrev at_teardown : Operation
at_teardown = stopping Vocabulary.running Vocabulary.teardown Vocabulary.result_pending []

abbrev finished : Operation
finished = stopping Vocabulary.succeeded Vocabulary.complete Vocabulary.result_succeeded []

abbrev answered : Operation
answered =
    stopping Vocabulary.succeeded Vocabulary.complete Vocabulary.result_succeeded (bytes "{}")

rank-Accepted_example :
    operation_stage_rank at_teardown.stage ≤ℤ operation_stage_rank finished.stage
unfolding operation_opened validate_operation_advance terminal_operation_update_allowed
rank-Accepted_example = rank-Accepted decodes at_teardown finished refl refl (refl, inl refl)

terminal-Accepted_example :
    (answered ≡ record finished { response = answered.response })
    × ((finished.response ≡ answered.response) ⊎ (finished.response ≡ []))
unfolding operation_opened validate_operation_advance terminal_operation_update_allowed
terminal-Accepted_example = terminal-Accepted finished answered refl (refl, inr refl)
