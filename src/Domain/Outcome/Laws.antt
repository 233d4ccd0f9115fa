-- ===== src/Domain/Outcome/Laws.antt =====
-- What an accepted outcome says.
use mydocker.Base.{
  refl, ◌≡◌, ◌↔◌, ◌⊎◌, Bool, true, false, not, ◌&&◌, ◌||◌, is_empty, is_none, is_some, ok, arith,
}
use mydocker.Base.Int.{ℤ, pos, ◌≤ℤ◌}
use mydocker.Text.{Text, contains_nul}
use mydocker.Text.Trim.{is_blank, trim_space-nil}
use mydocker.Domain.Outcome.{
  Outcome, EvidenceState, pending, not_applicable, captured, evidence_unknown, is_valid_evidence,
  pending_outcome, not_applicable_outcome, unknown_outcome, exit_outcome, signal_outcome,
  validate_outcome, outcomes_equal,
}

abbrev pub has_result : Outcome → Bool
has_result o = is_some o.exit_code || not (is_empty o.signal)

-- The presence of an outcome agrees with its facts.
pub record Agrees (o : Outcome) : Type 0 where
  pub result : (o.presence ≡ captured) ↔ (has_result o ≡ true)
  pub one_result : (is_some o.exit_code && not (is_empty o.signal)) ≡ false
  pub measured : (o.presence ≡ captured) ↔ (is_some o.running_duration ≡ true)
  pub timed : o.presence ≡ captured → (is_some o.started_at && is_some o.finished_at) ≡ true
  pub unfinished : o.presence ≡ pending → is_none o.finished_at ≡ true
  pub never_ran :
      o.presence ≡ not_applicable → (is_none o.started_at && is_none o.finished_at) ≡ true
  pub unseen : (o.presence ≡ pending) ⊎ (o.presence ≡ not_applicable) → o.oom ≡ evidence_unknown

-- Outcome.Validate accepts an outcome only if its presence agrees with its facts: it is `captured`
-- exactly when it has an exit code or a signal, and then not both, and exactly when it has a
-- duration; a captured outcome has both instants, a pending one no finish, one that is not
-- applicable no instant; a pending one and one that is not applicable have no evidence about OOM.
pub validate_outcome-Agrees : (o : Outcome) → validate_outcome o ≡ ok tt → Agrees o
unfolding validate_outcome
validate_outcome-Agrees o h = record {
  result = (λ e. ground arith, λ e. ground arith);
  one_result = ground arith;
  measured = (λ e. ground arith, λ e. ground arith);
  timed = λ e. ground arith;
  unfinished = λ e. ground arith;
  never_ran = λ e. ground arith;
  unseen = λ e. ground arith;
}

-- The constructors of outcomes give an accepted outcome exactly when their evidence is one of the
-- three states, their code and duration are not negative, and their signal can be stored.
pub constructors-eq-ok :
    (code started finished duration : ℤ) (signal : Text) (oom : EvidenceState)
    → (validate_outcome pending_outcome ≡ ok tt)
      × (validate_outcome not_applicable_outcome ≡ ok tt)
      × ((validate_outcome (unknown_outcome oom) ≡ ok tt) ↔ (is_valid_evidence oom ≡ true))
      × ((validate_outcome (exit_outcome code oom started finished duration) ≡ ok tt)
          ↔ ((is_valid_evidence oom ≡ true) × (pos 0 ≤ℤ code) × (pos 0 ≤ℤ duration)))
      × ((validate_outcome (signal_outcome signal oom started finished duration) ≡ ok tt) ↔ (
          (is_valid_evidence oom ≡ true)
          × (is_blank signal ≡ false)
          × (contains_nul signal ≡ false)
          × (pos 0 ≤ℤ duration)))
unfolding validate_outcome pending_outcome not_applicable_outcome unknown_outcome exit_outcome
    signal_outcome
constructors-eq-ok code started finished duration signal oom = (
  ground arith,
  ground arith,
  (λ h. ground arith, λ h. ground arith),
  (λ h. ground arith, λ h. ground arith),
  (λ h. ground (arith, trim_space-nil), λ h. ground (arith, trim_space-nil)),
)

pub pending_outcome-ok :
    (validate_outcome pending_outcome ≡ ok tt) × (pending_outcome.presence ≡ pending)
unfolding validate_outcome pending_outcome
pending_outcome-ok = (ground arith, refl)

-- outcomesEqual decides equality.
pub outcomes_equal_iff : (a b : Outcome) → (outcomes_equal a b ≡ true) ↔ (a ≡ b)
unfolding outcomes_equal
outcomes_equal_iff a b = (λ h. ground arith, λ h. ground arith)
