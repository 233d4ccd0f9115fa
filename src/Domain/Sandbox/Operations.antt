-- ===== src/Domain/Sandbox/Operations.antt =====
-- The methods that change a Sandbox, as one step function and its runs.
use mydocker.Base.{List, [], ◌∷◌}
use mydocker.Text.{Text}
use mydocker.Domain.Errors.{Check}
use mydocker.Domain.Identity.{ContainerId, AttemptId}
use mydocker.Domain.SandboxPhase.{SandboxPhase}
use mydocker.Domain.Conditions.{Condition, LifecycleObservation}
use mydocker.Domain.Sandbox.{
  Sandbox, transition, set_current_pair, clear_current_pair, set_last_observation, set_conditions,
  upsert, clear,
}

pub data Operation : Type 0 where
  moves : SandboxPhase → Operation
  sets_pair clears_pair : ContainerId → AttemptId → Operation
  observes : LifecycleObservation → Operation
  sets_conditions : List Condition → Operation
  upserts : Condition → Operation
  clears : Text → Operation

abbrev pub apply : Sandbox → Operation → Sandbox × Check
apply s (moves next) = transition s next
apply s (sets_pair c a) = set_current_pair s c a
apply s (clears_pair c a) = clear_current_pair s c a
apply s (observes o) = set_last_observation s o
apply s (sets_conditions cs) = set_conditions s cs
apply s (upserts c) = upsert s c
apply s (clears type) = clear s type

abbrev pub run : Sandbox → List Operation → Sandbox
run s [] = s
run s (op ∷ ops) = run (apply s op).0 ops
