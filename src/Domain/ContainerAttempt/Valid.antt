-- ===== src/Domain/ContainerAttempt/Valid.antt =====
-- The status of a Container shows its Attempt.
use mydocker.Base.{
  ℕ, ◌≡◌, refl, ◌↔◌, true, List, [], ◌∷◌, ok, arith, >>-eq-ok, beq_refl, beq→eq, option_eq,
}
use mydocker.Domain.AttemptPhase.{attempt_phase_eq}
use mydocker.Domain.Conditions.{Condition, condition_eq, observation_eq, conditions_equal}
use mydocker.Domain.Outcome.Laws.{outcomes_equal_iff}
use mydocker.Domain.Container.{identity_eq, streams_eq, ContainerStatus, Attempt, ContainerAttempt}
use mydocker.Domain.ContainerAttempt.{
  projected, projected_status_equal, validate, validate_references, validate_generations,
  validate_facts,
}

abbrev pub Valid : ContainerAttempt → Type 0
Valid p = validate p ≡ ok tt

conditions_equal_refl : (cs : List Condition) → conditions_equal cs cs ≡ true
unfolding conditions_equal
conditions_equal_refl [] = refl
conditions_equal_refl (c ∷ cs) = ground (arith, beq_refl c, conditions_equal_refl cs)

conditions_equal→eq : (cs ds : List Condition) → conditions_equal cs ds ≡ true → cs ≡ ds
unfolding conditions_equal
conditions_equal→eq [] [] h = refl
conditions_equal→eq [] (d ∷ ds) h = cc
conditions_equal→eq (c ∷ cs) [] h = cc
conditions_equal→eq (c ∷ cs) (d ∷ ds) h = ground (arith, conditions_equal→eq cs ds)

-- A fresh projection passes the comparison of the two records.
pub projected_status_equal-projected :
    (a : Attempt) (generation observed : ℕ)
    → projected_status_equal (projected a generation observed) a ≡ true
unfolding projected_status_equal
projected_status_equal-projected a generation observed = ground (
  arith,
  beq_refl a.phase,
  beq_refl a.streams,
  beq_refl a.last_observation,
  conditions_equal_refl a.conditions,
  beq_refl a.process_identity,
  (outcomes_equal_iff a.outcome a.outcome).1,
)

-- And nothing else does.
pub projected_of_equal :
    (s : ContainerStatus) (a : Attempt)
    → projected_status_equal s a ≡ true
    → s ≡ projected a s.generation s.observed_generation
unfolding projected_status_equal
projected_of_equal s a h = ground (
  arith,
  conditions_equal→eq s.conditions a.conditions,
  (outcomes_equal_iff s.outcome a.outcome).0,
  beq→eq s.process_identity a.process_identity,
)

pub validate-parts :
    (p : ContainerAttempt)
    → Valid p ↔ (
        (validate_references p ≡ ok tt)
        × (validate_generations p ≡ ok tt)
        × (validate_facts p ≡ ok tt))
unfolding validate
validate-parts p = (
  λ v.
      let (a, v') = >>-eq-ok (validate_references p) _ v in
      let (b, c) = >>-eq-ok (validate_generations p) _ v' in (a, b, c),
  λ (a, b, c). rw (a, b) c,
)
