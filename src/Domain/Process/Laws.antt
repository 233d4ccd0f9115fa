-- ===== src/Domain/Process/Laws.antt =====
-- When a stop can be planned.
use mydocker.Base.{◌≡◌, ◌↔◌, false, ok, arith}
use mydocker.Base.Int.{pos, ◌≤ℤ◌}
use mydocker.Text.{contains_nul}
use mydocker.Text.Trim.{is_blank, trim_space-nil}
use mydocker.Domain.Process.{TerminationPolicy, KillPlan, new_kill_plan}

-- Both signals are named, and the grace period is not negative.
pub record IsExplicit (p : TerminationPolicy) : Type 0 where
  pub patient : pos 0 ≤ℤ p.grace_period
  pub signal_named : is_blank p.signal ≡ false
  pub signal_storable : contains_nul p.signal ≡ false
  pub escalation_named : is_blank p.escalation_signal ≡ false
  pub escalation_storable : contains_nul p.escalation_signal ≡ false

abbrev pub plan_of : TerminationPolicy → KillPlan
plan_of p = record {
  signal = p.signal;
  grace_period = p.grace_period;
  escalation_signal = p.escalation_signal;
}

-- NewKillPlan succeeds exactly on an explicit policy, and copies it.
pub new_kill_plan-eq-ok :
    (p : TerminationPolicy) {k : KillPlan}
    → (new_kill_plan p ≡ ok k) ↔ (IsExplicit p × (k ≡ plan_of p))
unfolding new_kill_plan
new_kill_plan-eq-ok p {k} = (λ h. ground arith, λ h. ground (arith, trim_space-nil))
