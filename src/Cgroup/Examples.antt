-- ===== src/Cgroup/Examples.antt =====
-- The theorems of the limits at concrete values.
use mydocker.Base.{ℕ, ◌≡◌, ◌≤◌, ◌*◌, ◌↔◌, refl, false, some, ok, arith}
use mydocker.Base.Int.{pos}
use mydocker.Domain.Resources.{ResolvedResourceLimits, validate_resolved}
use mydocker.Cgroup.Limits.{
  EffectiveLimits, max_uint64, bit_and, is_bad_page, sum_quota, cpu_quota_micros,
  round_memory_to_page, plan_cpu, effective_memory, plan_limits,
}
use mydocker.Cgroup.Limits.Laws.{cpu_quota_micros-eq-ok}
use mydocker.Cgroup.Limits.Plan.{plan_limits-eq-ok, IsWritten, IsReadBack}

cpu_quota_micros-eq-ok_example :
    (cpu_quota_micros (pos 1234) ≡ ok 123400)
    ↔ ((10 ≤ 1234) × (1234 * 100 ≤ max_uint64) × (123400 ≡ 1234 * 100))
cpu_quota_micros-eq-ok_example = cpu_quota_micros-eq-ok 1234 123400 (omega arith)

abbrev limits : ResolvedResourceLimits
limits = record {
  cpu_unlimited = false;
  cpu_limit_milli = some (pos 1234);
  memory_unlimited = false;
  memory_limit_bytes = some (pos 5000);
  pids_limit = pos 64;
}

abbrev planned : ℕ → EffectiveLimits
planned memory = record {
  cpu = record { unlimited = false; quota_micros = 123400; period_micros = 100000 };
  memory = record { unlimited = false; value = memory };
  pids = record { unlimited = false; value = 64 };
}

plan_limits-eq-ok_example :
    (validate_resolved limits ≡ ok tt)
    × IsWritten limits (planned 5000)
    × IsReadBack 4096 (planned 5000) (planned 8192)
unfolding plan_limits bit_and is_bad_page sum_quota cpu_quota_micros round_memory_to_page plan_cpu
    effective_memory validate_resolved
plan_limits-eq-ok_example =
    plan_limits-eq-ok limits 4096 (planned 5000) (planned 8192) (λ n e. grind arith)
      (λ n e. grind arith) (omega arith) refl
