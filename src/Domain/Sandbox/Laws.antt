-- ===== src/Domain/Sandbox/Laws.antt =====
-- Validity of a Sandbox under its methods.
use mydocker.Base.{
  if◌then◌else◌, ◌==◌, is_ok, false, is_ok, ◌≤◌, ◌≡◌, refl, ◌↔◌, ◌⊎◌, inl, inr, List, [], ◌∷◌,
  Result-cases, ok, arith,
}
use mydocker.Text.{Text}
use mydocker.Domain.Errors.{Check}
use mydocker.Domain.Identity.{ContainerId, AttemptId}
use mydocker.Domain.SandboxPhase.{SandboxPhase, transition_sandbox, ready, sandbox_phase_eq}
use mydocker.Domain.SandboxPhase.Graph.{◌⟶◌, transition_sandbox-⟶}
use mydocker.Domain.SandboxSpec.{SandboxSpec}
use mydocker.Domain.Conditions.{
  Condition, LifecycleObservation, upsert_condition, without_condition,
}
use mydocker.Domain.Sandbox.{
  Sandbox, validate, transition, set_current_pair, clear_current_pair, set_last_observation,
  set_conditions, upsert, clear, new_sandbox, moved,
}
use mydocker.Domain.Sandbox.Operations.{
  Operation, moves, sets_pair, clears_pair, observes, sets_conditions, upserts, clears, apply, run,
}

abbrev pub Valid : Sandbox → Type 0
Valid s = validate s ≡ ok tt

-- The outcome of a method: valid, and unchanged where it fails.
abbrev pub Keeps : Sandbox → Sandbox × Check → Type 0
Keeps s r = Valid r.0 × ((r.1 ≡ ok tt) ⊎ (r.0 ≡ s))

transition-Keeps : (s : Sandbox) (next : SandboxPhase) → Valid s → Keeps s (transition s next)
unfolding transition
transition-Keeps s next v = ground arith

set_conditions-Keeps : (s : Sandbox) (cs : List Condition) → Valid s → Keeps s (set_conditions s cs)
unfolding set_conditions
set_conditions-Keeps s cs v = ground arith

set_pair-Keeps :
    (s : Sandbox) (c : ContainerId) (a : AttemptId) → Valid s → Keeps s (set_current_pair s c a)
unfolding set_current_pair validate
set_pair-Keeps s c a v = ground arith

clear_pair-Keeps :
    (s : Sandbox) (c : ContainerId) (a : AttemptId) → Valid s → Keeps s (clear_current_pair s c a)
unfolding clear_current_pair validate
clear_pair-Keeps s c a v = ground arith

observation-Keeps :
    (s : Sandbox) (o : LifecycleObservation) → Valid s → Keeps s (set_last_observation s o)
unfolding set_last_observation validate
observation-Keeps s o v = ground arith

upsert-Keeps : (s : Sandbox) (c : Condition) → Valid s → Keeps s (upsert s c)
unfolding upsert
upsert-Keeps s c v =
    ground (arith, set_conditions-Keeps s (upsert_condition s.status.conditions c) v)

clear-Keeps : (s : Sandbox) (type : Text) → Valid s → Keeps s (clear s type)
unfolding clear
clear-Keeps s type v = elim (Result-cases (without_condition s.status.conditions type)) [
  | inl (cs, e) ↦ rw (e, clear) (set_conditions-Keeps s cs v)
  | inr (x, e) ↦ rw (e, clear) (v, inr refl)
]

-- Every method of a valid Sandbox leaves it valid, and leaves it as it was where it returns an error:
-- also those that write before they validate.
pub sandbox_apply-Keeps : (s : Sandbox) (op : Operation) → Valid s → Keeps s (apply s op)
sandbox_apply-Keeps s (moves next) v = transition-Keeps s next v
sandbox_apply-Keeps s (sets_pair c a) v = set_pair-Keeps s c a v
sandbox_apply-Keeps s (clears_pair c a) v = clear_pair-Keeps s c a v
sandbox_apply-Keeps s (observes o) v = observation-Keeps s o v
sandbox_apply-Keeps s (sets_conditions cs) v = set_conditions-Keeps s cs v
sandbox_apply-Keeps s (upserts c) v = upsert-Keeps s c v
sandbox_apply-Keeps s (clears type) v = clear-Keeps s type v

run-Valid : (s : Sandbox) (ops : List Operation) → Valid s → Valid (run s ops)
run-Valid s [] v = v
run-Valid s (op ∷ ops) v = run-Valid (apply s op).0 ops (sandbox_apply-Keeps s op v).0

-- What no method changes, and what only grows.
pub record Extends (s t : Sandbox) : Type 0 where
  pub same_version : t.version ≡ s.version
  pub same_id : t.id ≡ s.id
  pub same_spec : t.spec ≡ s.spec
  pub same_generation : t.status.generation ≡ s.status.generation
  pub later : s.status.last_observation.event_sequence ≤ t.status.last_observation.event_sequence

apply-Extends : (s : Sandbox) (op : Operation) → Extends s (apply s op).0
unfolding transition set_current_pair clear_current_pair set_last_observation upsert clear
apply-Extends s (moves next) = ground arith
apply-Extends s (sets_pair c a) = ground arith
apply-Extends s (clears_pair c a) = ground arith
apply-Extends s (observes o) = ground arith
apply-Extends s (sets_conditions cs) = ground arith
apply-Extends s (upserts c) = ground arith
apply-Extends s (clears type) = ground arith

run-Extends : (s : Sandbox) (ops : List Operation) → Extends s (run s ops)
run-Extends s [] = ground arith
run-Extends s (op ∷ ops) = ground (arith, apply-Extends s op, run-Extends (apply s op).0 ops)

-- A Sandbox that NewSandbox accepts stays valid under any sequence of its methods, keeps its
-- identity, spec and generation, and its event sequence never falls.
pub new_sandbox-run :
    (id : Text) (spec : SandboxSpec) {s : Sandbox} (ops : List Operation)
    → new_sandbox id spec ≡ ok s
    → Valid (run s ops) × Extends s (run s ops) × (s.id ≡ id) × (s.spec ≡ spec)
unfolding new_sandbox
new_sandbox-run id spec {s} ops h =
    (run-Valid s ops (ground arith), run-Extends s ops, ground arith, ground arith)

transition-ok :
    (s : Sandbox) (next : SandboxPhase)
    → Valid s
    → (transition_sandbox s.status.phase next).1 ≡ ok tt
    → (transition s next).1 ≡ ok tt
unfolding transition validate transition_sandbox
transition-ok s next v h = ground arith

edge-ok :
    (s : Sandbox) (next : SandboxPhase)
    → (transition s next).1 ≡ ok tt
    → (transition_sandbox s.status.phase next).1 ≡ ok tt
unfolding transition
edge-ok s next h = ground arith

moved_lem :
    (s : Sandbox) (next : SandboxPhase)
    → (transition s next).1 ≡ ok tt
    → (transition s next).0 ≡ moved s next next
unfolding transition
moved_lem s next h = ground (arith, (transition_sandbox-⟶ s.status.phase next).1)

-- A Sandbox at the target. One that becomes ready has observed its generation, and nothing else differs.
abbrev pub at_target : Sandbox → SandboxPhase → Sandbox
at_target s next = record s {
  status = record (s.status) {
    phase = next;
    observed_generation =
        if next == ready then s.status.generation else s.status.observed_generation;
  };
}

-- Transition of a valid Sandbox returns no error exactly along an edge of the phase graph. Where it
-- returns none, the Sandbox stands at the target, one that becomes ready has observed its generation, and
-- nothing else changes; where it returns one, the Sandbox is as it was.
pub sandbox_transition-eq-ok :
    (s : Sandbox) (next : SandboxPhase)
    → Valid s
    → (((transition s next).1 ≡ ok tt) ↔ (s.status.phase ⟶ next))
      × ((transition s next).1 ≡ ok tt → (transition s next).0 ≡ at_target s next)
      × (is_ok (transition s next).1 ≡ false → (transition s next).0 ≡ s)
sandbox_transition-eq-ok s next v =
    let (to, from) = (transition_sandbox-⟶ s.status.phase next).0 in
    (
      (λ e. to (edge-ok s next e), λ e. transition-ok s next v (from e)),
      moved_lem s next,
      λ e. ground (arith, transition-Keeps s next v),
    )
