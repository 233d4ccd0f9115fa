-- ===== src/Domain/ContainerAttempt/Transition.antt =====
-- When a transition succeeds, and what it leaves.
use mydocker.Base.{
  if◌then◌else◌, ◌==◌, is_ok, is_ok, ap, ◌≡◌, ◌≢◌, refl, ◌↔◌, ◌⊎◌, inl, inr, true, false, ok, arith,
}
use mydocker.Domain.AttemptPhase.{
  is_active_attempt, is_valid, AttemptPhase, absent, creating, created, running, stopped,
  transition_attempt, attempt_phase_eq,
}
use mydocker.Domain.AttemptPhase.Graph.{
  create, prepare, start, abandon, discard, finish, remove, ◌⟶◌, transition_attempt-⟶,
}
use mydocker.Domain.Conditions.{has_condition, condition_outcome_unknown}
use mydocker.Domain.Outcome.{Outcome, pending, not_applicable, captured, unknown, validate_outcome}
use mydocker.Domain.Container.{ContainerAttempt}
use mydocker.Domain.ContainerAttempt.{
  project_attempt, project_attempt, validate_references, validate_generations, validate_facts,
  validate, moved, transition, validate_transition_outcome, unsafe_process,
}
use mydocker.Domain.ContainerAttempt.Valid.{validate-parts, Valid, projected_status_equal-projected}

-- The outcome that belongs to an edge: pending before the end; at the end not applicable or unknown where
-- no workload ran, captured or unknown where one did, and not pending at a removal.
pub data Fits : AttemptPhase → AttemptPhase → Outcome → Type 0 where
  before_end :
      {from to : AttemptPhase} {o : Outcome}
      → to ≢ stopped
      → to ≢ absent
      → o.presence ≡ pending
      → Fits from to o
  never_ran :
      {from : AttemptPhase} {o : Outcome}
      → (from ≡ creating) ⊎ (from ≡ created)
      → (o.presence ≡ not_applicable) ⊎ (o.presence ≡ unknown)
      → Fits from stopped o
  ran : {o : Outcome} → (o.presence ≡ captured) ⊎ (o.presence ≡ unknown) → Fits running stopped o
  removed : {o : Outcome} → o.presence ≢ pending → Fits stopped absent o

pub record MayMove (p : ContainerAttempt) (next : AttemptPhase) (o : Outcome) : Type 0 where
  pub edge : p.attempt.phase ⟶ next
  pub outcome_valid : validate_outcome o ≡ ok tt
  pub outcome_fits : Fits p.attempt.phase next o
  pub identified : next ≡ running → unsafe_process p.attempt.process_identity ≡ false
  pub fresh : next ≡ creating → p.container.status.observed_generation ≡ 0
  pub flagged :
      o.presence ≡ unknown → has_condition p.attempt.conditions condition_outcome_unknown ≡ true

-- The Attempt with the phase and the outcome, and the Container that shows every part of it; a created
-- Attempt has observed its generation.
abbrev pub Moved : ContainerAttempt → AttemptPhase → Outcome → ContainerAttempt → Type 0
Moved p next o q =
    (q.attempt ≡ record (p.attempt) { phase = next; outcome = o })
    × (q.container ≡ record (p.container) {
      status = record {
        phase = next;
        generation = p.container.status.generation;
        observed_generation =
            if next == created
            then p.container.status.generation
            else p.container.status.observed_generation;
        conditions = p.attempt.conditions;
        process_identity = p.attempt.process_identity;
        streams = p.attempt.streams;
        outcome = o;
        last_observation = p.attempt.last_observation;
      };
    })

Fits-of_ok :
    {from to : AttemptPhase} (o : Outcome)
    → from ⟶ to
    → validate_transition_outcome from to o ≡ ok tt
    → Fits from to o
unfolding validate_transition_outcome
Fits-of_ok o create h = before_end (λ e. cc) (λ e. cc) (ground arith)
Fits-of_ok o prepare h = before_end (λ e. cc) (λ e. cc) (ground arith)
Fits-of_ok o start h = before_end (λ e. cc) (λ e. cc) (ground arith)
Fits-of_ok o abandon h = never_ran (inl refl) (ground arith)
Fits-of_ok o discard h = never_ran (inr refl) (ground arith)
Fits-of_ok o finish h = ran (ground arith)
Fits-of_ok o remove h = removed (ground arith)

outcome_of_ok :
    (from to : AttemptPhase) (o : Outcome)
    → validate_transition_outcome from to o ≡ ok tt
    → validate_outcome o ≡ ok tt
unfolding validate_transition_outcome
outcome_of_ok from to o h = ground arith

ok_of_Fits :
    {from to : AttemptPhase} {o : Outcome}
    → Fits from to o
    → validate_outcome o ≡ ok tt
    → validate_transition_outcome from to o ≡ ok tt
unfolding validate_transition_outcome
ok_of_Fits (before_end a b c) v = ground arith
ok_of_Fits (never_ran a b) v = ground arith
ok_of_Fits (ran b) v = ground arith
ok_of_Fits (removed b) v = ground arith

Fits-end :
    {from to : AttemptPhase} {o : Outcome}
    → Fits from to o
    → (is_active_attempt to ≡ true → o.presence ≡ pending) × (to ≡ stopped → o.presence ≢ pending)
Fits-end (before_end a b c) = (λ e. c, λ e. absurd (a e))
Fits-end (never_ran a b) = (λ e. ground arith, λ e. ground arith)
Fits-end (ran b) = (λ e. ground arith, λ e. ground arith)
Fits-end (removed b) = (λ e. ground arith, λ e. ground arith)

target :
    {from to : AttemptPhase} → from ⟶ to → (is_valid to ≡ true) × (to ≡ running → from ≡ created)
unfolding is_valid
target create = (refl, λ e. cc)
target prepare = (refl, λ e. cc)
target start = (refl, λ e. refl)
target abandon = (refl, λ e. cc)
target discard = (refl, λ e. cc)
target finish = (refl, λ e. cc)
target remove = (refl, λ e. cc)

module _ (p : ContainerAttempt) (next : AttemptPhase) (o : Outcome) where
  first_checks :
      (transition p next o).1 ≡ ok tt
      → ((transition_attempt p.attempt.phase next).1 ≡ ok tt)
        × (validate_transition_outcome p.attempt.phase next o ≡ ok tt)
        × (validate (transition p next o).0 ≡ ok tt)
        × ((transition p next o).0 ≡ moved p (transition_attempt p.attempt.phase next).0 next o)
  unfolding transition
  first_checks h = ground arith

  moved_facts :
      validate (moved p next next o) ≡ ok tt
      → (next ≡ running → unsafe_process p.attempt.process_identity ≡ false)
        × (next ≡ creating → p.container.status.observed_generation ≡ 0)
        × (o.presence ≡ unknown
            → has_condition p.attempt.conditions condition_outcome_unknown ≡ true)
  unfolding validate moved
  moved_facts h = (λ e. ground arith, λ e. ground arith, λ e. ground arith)

  moved_references :
      validate_references p ≡ ok tt → validate_references (moved p next next o) ≡ ok tt
  unfolding validate_references moved
  moved_references h = ground arith

  moved_generations :
      validate_generations p ≡ ok tt
      → p.attempt.phase ⟶ next
      → (next ≡ creating → p.container.status.observed_generation ≡ 0)
      → validate_generations (moved p next next o) ≡ ok tt
  unfolding validate_generations moved
  moved_generations h e f = ground (arith, target e)

  moved_facts_ok :
      validate_facts p ≡ ok tt → MayMove p next o → validate_facts (moved p next next o) ≡ ok tt
  unfolding validate_facts moved
  moved_facts_ok h m = ground (
    arith,
    Fits-end m.outcome_fits,
    projected_status_equal-projected (record (p.attempt) { phase = next; outcome = o })
        (moved p next next o).container.status.generation
        (moved p next next o).container.status.observed_generation,
  )

  moved-Valid : Valid p → MayMove p next o → Valid (moved p next next o)
  moved-Valid v m =
      let (a, b, c) = (validate-parts p).0 v in
      (validate-parts (moved p next next o)).1
        (moved_references a, moved_generations b m.edge m.fresh, moved_facts_ok c m)

  may_of_ok :
      (transition p next o).1 ≡ ok tt
      → MayMove p next o × ((transition p next o).0 ≡ moved p next next o)
  may_of_ok h =
      let (adjacent, outcome_ok, valid, result) = first_checks h in
      let (edges, phase) = transition_attempt-⟶ p.attempt.phase next in
      let e : (transition_attempt p.attempt.phase next).0 ≡ next = ground arith in
      let r : (transition p next o).0 ≡ moved p next next o = ground arith in
      let facts = moved_facts (rw r at valid) in
      (
        record {
          edge = edges.0 adjacent;
          outcome_valid = outcome_of_ok p.attempt.phase next o outcome_ok;
          outcome_fits = Fits-of_ok o (edges.0 adjacent) outcome_ok;
          identified = facts.0;
          fresh = facts.1;
          flagged = facts.2;
        },
        r,
      )

  ok_of_may : Valid p → MayMove p next o → (transition p next o).1 ≡ ok tt
  unfolding transition
  ok_of_may v m =
      let (edges, phase) = transition_attempt-⟶ p.attempt.phase next in
      ground
        (arith, edges.1 m.edge, phase, ok_of_Fits m.outcome_fits m.outcome_valid, moved-Valid v m)

  moved_lem : (transition p next o).1 ≡ ok tt → Moved p next o (transition p next o).0
  unfolding moved project_attempt
  moved_lem h = rw ((may_of_ok h).1) (refl, refl)

  unmoved : is_ok (transition p next o).1 ≡ false → (transition p next o).0 ≡ p
  unfolding transition
  unmoved h = ground arith

  -- Transition of a valid pair returns no error exactly along an edge of the phase graph with an outcome
  -- that is valid and fits the edge, given a safe process identity for `running`, an unobserved generation
  -- for `creating`, and the OutcomeUnknown condition for an unknown outcome. Where it returns none, the
  -- Attempt has the target and that outcome and is otherwise as it was, and its Container shows it; where
  -- it returns one, the pair is as it was.
  pub transition-eq-ok :
      Valid p
      → (((transition p next o).1 ≡ ok tt) ↔ MayMove p next o)
        × ((transition p next o).1 ≡ ok tt → Moved p next o (transition p next o).0)
        × (is_ok (transition p next o).1 ≡ false → (transition p next o).0 ≡ p)
  transition-eq-ok v = ((λ e. (may_of_ok e).0, ok_of_may v), moved_lem, unmoved)

moved_outcome :
    (p : ContainerAttempt) (next : AttemptPhase) (o : Outcome)
    → (transition p next o).0 ≡ moved p next next o
    → (transition p next o).0.attempt.outcome ≡ o
unfolding moved
moved_outcome p next o e = ap (λ (q : ContainerAttempt). q.attempt.outcome) e

-- Where a valid pair is stopped, its removal may carry any valid outcome that is not pending (with its
-- condition, where unknown), and stores it: the terminal outcome is not kept.
pub removal_replaces :
    (p : ContainerAttempt) (o : Outcome)
    → Valid p
    → p.attempt.phase ≡ stopped
    → validate_outcome o ≡ ok tt
    → o.presence ≢ pending
    → (o.presence ≡ unknown → has_condition p.attempt.conditions condition_outcome_unknown ≡ true)
    → ((transition p absent o).1 ≡ ok tt) × ((transition p absent o).0.attempt.outcome ≡ o)
removal_replaces p o v s h n f =
    let done = ok_of_may p absent o v (record {
      edge = rw s remove;
      outcome_valid = h;
      outcome_fits = rw s (removed n);
      identified = λ e. cc;
      fresh = λ e. cc;
      flagged = f;
    }) in
    (done, moved_outcome p absent o (may_of_ok p absent o done).1)
