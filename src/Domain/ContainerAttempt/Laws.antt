-- ===== src/Domain/ContainerAttempt/Laws.antt =====
-- Validity of a pair under its methods.
use mydocker.Base.{
  ◌≤◌, ◌≡◌, refl, ◌⊎◌, inl, inr, List, [], ◌∷◌, Option, none, some, Result-cases, ok, arith,
}
use mydocker.Text.{Text}
use mydocker.Domain.Errors.{Check}
use mydocker.Domain.AttemptPhase.{AttemptPhase}
use mydocker.Domain.Conditions.{
  Condition, LifecycleObservation, upsert_condition, without_condition,
}
use mydocker.Domain.Outcome.{Outcome}
use mydocker.Domain.Container.{ProcessIdentity, StreamReferences, ContainerAttempt}
use mydocker.Domain.ContainerAttempt.{
  ProcessSpec, AttemptId, ContainerId, Sandbox, new_container_attempt, moved, validate, transition,
  set_process_identity, set_streams, set_conditions, upsert, clear, set_last_observation,
}
use mydocker.Domain.ContainerAttempt.Valid.{Valid, projected_status_equal-projected}
use mydocker.Domain.ContainerAttempt.Operations.{
  Operation, moves, identifies, connects, sets_conditions, upserts, clears, observes, apply, run,
}

-- The outcome of a method: valid, and unchanged where it fails.
abbrev pub Keeps : ContainerAttempt → ContainerAttempt × Check → Type 0
Keeps p r = Valid r.0 × ((r.1 ≡ ok tt) ⊎ (r.0 ≡ p))

transition-Keeps :
    (p : ContainerAttempt) (next : AttemptPhase) (o : Outcome)
    → Valid p
    → Keeps p (transition p next o)
unfolding transition
transition-Keeps p next o v = ground arith

set_conditions-Keeps :
    (p : ContainerAttempt) (cs : List Condition) → Valid p → Keeps p (set_conditions p cs)
unfolding set_conditions
set_conditions-Keeps p cs v = ground arith

set_streams-Keeps :
    (p : ContainerAttempt) (s : StreamReferences) → Valid p → Keeps p (set_streams p s)
unfolding set_streams validate
set_streams-Keeps p s v = ground (
  arith,
  projected_status_equal-projected (record (p.attempt) { streams = s })
      p.container.status.generation p.container.status.observed_generation,
)

observation-Keeps :
    (p : ContainerAttempt) (o : LifecycleObservation) → Valid p → Keeps p (set_last_observation p o)
unfolding set_last_observation validate
observation-Keeps p o v = ground (
  arith,
  projected_status_equal-projected (record (p.attempt) { last_observation = o })
      p.container.status.generation p.container.status.observed_generation,
)

identity-Keeps :
    (p : ContainerAttempt) (i : ProcessIdentity) → Valid p → Keeps p (set_process_identity p i)
unfolding set_process_identity validate
identity-Keeps p i v = ground (
  arith,
  projected_status_equal-projected (record (p.attempt) { process_identity = some i })
      p.container.status.generation p.container.status.observed_generation,
)

upsert-Keeps : (p : ContainerAttempt) (c : Condition) → Valid p → Keeps p (upsert p c)
unfolding upsert
upsert-Keeps p c v =
    ground (arith, set_conditions-Keeps p (upsert_condition p.attempt.conditions c) v)

clear-Keeps : (p : ContainerAttempt) (type : Text) → Valid p → Keeps p (clear p type)
unfolding clear
clear-Keeps p type v = elim (Result-cases (without_condition p.attempt.conditions type)) [
  | inl (cs, e) ↦ rw (e, clear) (set_conditions-Keeps p cs v)
  | inr (x, e) ↦ rw (e, clear) (v, inr refl)
]

-- Every method of a valid pair leaves it valid, and leaves it as it was where it returns an error: also
-- those that write before they validate.
pub apply-Keeps : (p : ContainerAttempt) (op : Operation) → Valid p → Keeps p (apply p op)
apply-Keeps p (moves next o) v = transition-Keeps p next o v
apply-Keeps p (identifies i) v = identity-Keeps p i v
apply-Keeps p (connects s) v = set_streams-Keeps p s v
apply-Keeps p (sets_conditions cs) v = set_conditions-Keeps p cs v
apply-Keeps p (upserts c) v = upsert-Keeps p c v
apply-Keeps p (clears type) v = clear-Keeps p type v
apply-Keeps p (observes o) v = observation-Keeps p o v

run-Valid : (p : ContainerAttempt) (ops : List Operation) → Valid p → Valid (run p ops)
run-Valid p [] v = v
run-Valid p (op ∷ ops) v = run-Valid (apply p op).0 ops (apply-Keeps p op v).0

-- A process identity, once there, stays.
abbrev pub Stays : Option ProcessIdentity → Option ProcessIdentity → Type 0
Stays none j = Unit
Stays (some i) j = j ≡ some i

-- What no method changes, and what only grows.
pub record Extends (p q : ContainerAttempt) : Type 0 where
  pub same_container : q.container.id ≡ p.container.id
  pub same_sandbox : q.container.sandbox_id ≡ p.container.sandbox_id
  pub same_attempt : q.attempt.id ≡ p.attempt.id
  pub same_spec : q.container.spec ≡ p.container.spec
  pub same_generation : q.container.status.generation ≡ p.container.status.generation
  pub same_identity : Stays p.attempt.process_identity q.attempt.process_identity
  pub later : p.attempt.last_observation.event_sequence ≤ q.attempt.last_observation.event_sequence

apply-Extends : (p : ContainerAttempt) (op : Operation) → Extends p (apply p op).0
unfolding transition moved set_process_identity set_streams set_last_observation upsert clear
apply-Extends p (moves next o) = ground arith
apply-Extends p (identifies i) = ground arith
apply-Extends p (connects s) = ground arith
apply-Extends p (sets_conditions cs) = ground arith
apply-Extends p (upserts c) = ground arith
apply-Extends p (clears type) = ground arith
apply-Extends p (observes o) = ground arith

run-Extends : (p : ContainerAttempt) (ops : List Operation) → Extends p (run p ops)
run-Extends p [] = ground arith
run-Extends p (op ∷ ops) = ground (arith, apply-Extends p op, run-Extends (apply p op).0 ops)

-- A pair that NewContainerAttempt accepts stays valid under any sequence of its methods. Its
-- identities, spec and generation never change, nor does its process identity once it is there, and
-- its event sequence never falls.
pub new_container_attempt-run :
    (sandbox : Sandbox) (container_id : ContainerId) (attempt_id : AttemptId)
    (process : ProcessSpec) (image_digest rootfs : Text) {p : ContainerAttempt}
    (before after : List Operation)
    → new_container_attempt sandbox container_id attempt_id process image_digest rootfs ≡ ok p
    → Valid (run p before)
      × Extends p (run p before)
      × Extends (run p before) (run (run p before) after)
unfolding new_container_attempt
new_container_attempt-run sandbox container_id attempt_id process image_digest rootfs {p} before
      after h =
    (run-Valid p before (ground arith), run-Extends p before, run-Extends (run p before) after)
