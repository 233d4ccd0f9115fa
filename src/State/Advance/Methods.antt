-- ===== src/State/Advance/Methods.antt =====
-- The store accepts what the methods of the domain make of a record.
use mydocker.Base.{◌≤◌, ◌≡◌, ◌≢◌, ◌⊎◌, Bool, true, false, none, ok, arith, beq_refl, option_eq}
use mydocker.Domain.SandboxPhase.{SandboxPhase, transition_sandbox, sandbox_phase_eq}
use mydocker.Domain.AttemptPhase.{AttemptPhase, transition_attempt, attempt_phase_eq, stopped}
use mydocker.Domain.Sandbox
use mydocker.Domain.Sandbox.{Sandbox}
use mydocker.Domain.Sandbox.Operations
use mydocker.Domain.Sandbox.Laws
use mydocker.Domain.Container.{ContainerAttempt, identity_eq, streams_eq}
use mydocker.Domain.ContainerAttempt
use mydocker.Domain.ContainerAttempt.Operations as PairOperations
use mydocker.Domain.ContainerAttempt.Valid.{Valid}
use mydocker.Domain.Outcome.{Outcome}
use mydocker.Domain.Container.{ProcessIdentity}
use mydocker.State.Advance.{
  validate_sandbox_advance, validate_container_attempt_advance, outcome_eq,
}

sandbox_target :
    (from to : SandboxPhase)
    → (transition_sandbox from to).1 ≡ ok tt
    → (transition_sandbox from (transition_sandbox from to).0).1 ≡ ok tt
unfolding transition_sandbox
sandbox_target from to h = ground arith

attempt_target :
    (from to : AttemptPhase)
    → (transition_attempt from to).1 ≡ ok tt
    → (transition_attempt from (transition_attempt from to).0).1 ≡ ok tt
unfolding transition_attempt
attempt_target from to h = ground arith

-- What the store compares of two Sandboxes.
abbrev Follows : Sandbox → Sandbox → Type 0
Follows s t =
    (s.status.observed_generation ≤ t.status.observed_generation)
    × (s.status.last_observation.event_sequence ≤ t.status.last_observation.event_sequence)
    × ((t.status.phase ≡ s.status.phase)
        ⊎ ((transition_sandbox s.status.phase t.status.phase).1 ≡ ok tt))

Follows-advance : (s t : Sandbox) → Follows s t → validate_sandbox_advance s t ≡ ok tt
unfolding validate_sandbox_advance
Follows-advance s t h = ground (arith, beq_refl s.status.phase)

observed_bound :
    (s : Sandbox) → Sandbox.Laws.Valid s → s.status.observed_generation ≤ s.status.generation
unfolding Sandbox.validate
observed_bound s v = ground arith

module _ (s : Sandbox) (bound : s.status.observed_generation ≤ s.status.generation) where
  transition-Follows : (next : SandboxPhase) → Follows s (Sandbox.transition s next).0
  unfolding Sandbox.transition
  transition-Follows next = ground (arith, sandbox_target s.status.phase next)

  apply-Follows : (op : Sandbox.Operations.Operation) → Follows s (Sandbox.Operations.apply s op).0
  unfolding Sandbox.set_current_pair Sandbox.clear_current_pair Sandbox.set_last_observation
      Sandbox.upsert Sandbox.clear
  apply-Follows (Sandbox.Operations.moves next) = transition-Follows next
  apply-Follows (Sandbox.Operations.sets_pair c a) = ground arith
  apply-Follows (Sandbox.Operations.clears_pair c a) = ground arith
  apply-Follows (Sandbox.Operations.observes o) = ground arith
  apply-Follows (Sandbox.Operations.sets_conditions cs) = ground arith
  apply-Follows (Sandbox.Operations.upserts c) = ground arith
  apply-Follows (Sandbox.Operations.clears type) = ground arith

-- The store accepts what any method makes of a valid Sandbox.
pub sandbox-advance :
    (s : Sandbox) (op : Sandbox.Operations.Operation)
    → Sandbox.Laws.Valid s
    → validate_sandbox_advance s (Sandbox.Operations.apply s op).0 ≡ ok tt
sandbox-advance s op v =
    Follows-advance s (Sandbox.Operations.apply s op).0 (apply-Follows s (observed_bound s v) op)

-- What the store compares of two pairs.
abbrev FollowsPair : ContainerAttempt → ContainerAttempt → Type 0
FollowsPair p q =
    (p.container.status.observed_generation ≤ q.container.status.observed_generation)
    × (p.attempt.last_observation.event_sequence ≤ q.attempt.last_observation.event_sequence)
    × ((p.attempt.process_identity ≡ none)
        ⊎ (q.attempt.process_identity ≡ p.attempt.process_identity))
    × ((q.attempt.phase ≡ p.attempt.phase)
        ⊎ ((transition_attempt p.attempt.phase q.attempt.phase).1 ≡ ok tt))
    × ((p.attempt.phase ≢ stopped)
        ⊎ (q.attempt.phase ≢ stopped)
        ⊎ ((q.attempt.outcome ≡ p.attempt.outcome)
            × (q.attempt.process_identity ≡ p.attempt.process_identity)
            × (q.attempt.streams ≡ p.attempt.streams)))

FollowsPair-advance :
    (p q : ContainerAttempt) → FollowsPair p q → validate_container_attempt_advance p q ≡ ok tt
unfolding validate_container_attempt_advance
FollowsPair-advance p q h = ground (
  arith,
  beq_refl p.attempt.phase,
  beq_refl p.attempt.process_identity,
  beq_refl p.attempt.outcome,
  beq_refl p.attempt.streams,
)

leaves_stopped :
    (to : AttemptPhase)
    → (transition_attempt stopped to).1 ≡ ok tt
    → (transition_attempt stopped to).0 ≢ stopped
unfolding transition_attempt
leaves_stopped to h e = ground arith

abbrev pub is_connects : PairOperations.Operation → Bool
is_connects (PairOperations.connects _) = true
is_connects _ = false

module _ (p : ContainerAttempt)
    (bound : p.container.status.observed_generation ≤ p.container.status.generation) where
  transition-FollowsPair :
      (next : AttemptPhase) (o : Outcome) → FollowsPair p (ContainerAttempt.transition p next o).0
  unfolding ContainerAttempt.transition ContainerAttempt.moved
  transition-FollowsPair next o =
      ground (arith, attempt_target p.attempt.phase next, leaves_stopped next)

  identity-FollowsPair :
      (i : ProcessIdentity) → FollowsPair p (ContainerAttempt.set_process_identity p i).0
  unfolding ContainerAttempt.set_process_identity
  identity-FollowsPair i = ground arith

  pair-FollowsPair :
      (op : PairOperations.Operation)
      → (p.attempt.phase ≢ stopped) ⊎ (is_connects op ≡ false)
      → FollowsPair p (PairOperations.apply p op).0
  unfolding ContainerAttempt.set_streams ContainerAttempt.set_last_observation
      ContainerAttempt.upsert ContainerAttempt.clear
  pair-FollowsPair (PairOperations.moves next o) h = transition-FollowsPair next o
  pair-FollowsPair (PairOperations.identifies i) h = identity-FollowsPair i
  pair-FollowsPair (PairOperations.connects s) h = ground arith
  pair-FollowsPair (PairOperations.sets_conditions cs) h = ground arith
  pair-FollowsPair (PairOperations.upserts c) h = ground arith
  pair-FollowsPair (PairOperations.clears type) h = ground arith
  pair-FollowsPair (PairOperations.observes o) h = ground arith

pair_bound :
    (p : ContainerAttempt)
    → Valid p
    → p.container.status.observed_generation ≤ p.container.status.generation
unfolding ContainerAttempt.validate
pair_bound p v = ground arith

-- The store accepts what any method makes of a valid pair, but for SetStreams where the Attempt is
-- stopped.
pub pair-advance :
    (p : ContainerAttempt) (op : PairOperations.Operation)
    → Valid p
    → (p.attempt.phase ≢ stopped) ⊎ (is_connects op ≡ false)
    → validate_container_attempt_advance p (PairOperations.apply p op).0 ≡ ok tt
pair-advance p op v h =
    FollowsPair-advance p (PairOperations.apply p op).0 (pair-FollowsPair p (pair_bound p v) op h)
