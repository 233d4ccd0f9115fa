-- ===== src/Domain/ContainerAttempt/Operations.antt =====
-- The methods that change a pair, as one step function and its runs.
use mydocker.Base.{List, [], ◌∷◌}
use mydocker.Text.{Text}
use mydocker.Domain.Errors.{Check}
use mydocker.Domain.AttemptPhase.{AttemptPhase}
use mydocker.Domain.Conditions.{Condition, LifecycleObservation}
use mydocker.Domain.Outcome.{Outcome}
use mydocker.Domain.Container.{ProcessIdentity, StreamReferences, ContainerAttempt}
use mydocker.Domain.ContainerAttempt.{
  transition, set_process_identity, set_streams, set_conditions, upsert, clear,
  set_last_observation,
}

pub data Operation : Type 0 where
  moves : AttemptPhase → Outcome → Operation
  identifies : ProcessIdentity → Operation
  connects : StreamReferences → Operation
  sets_conditions : List Condition → Operation
  upserts : Condition → Operation
  clears : Text → Operation
  observes : LifecycleObservation → Operation

abbrev pub apply : ContainerAttempt → Operation → ContainerAttempt × Check
apply p (moves next outcome) = transition p next outcome
apply p (identifies i) = set_process_identity p i
apply p (connects s) = set_streams p s
apply p (sets_conditions cs) = set_conditions p cs
apply p (upserts c) = upsert p c
apply p (clears type) = clear p type
apply p (observes o) = set_last_observation p o

abbrev pub run : ContainerAttempt → List Operation → ContainerAttempt
run p [] = p
run p (op ∷ ops) = run (apply p op).0 ops
