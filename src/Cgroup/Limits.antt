-- ===== src/Cgroup/Limits.antt =====
-- internal/cgroupv2/types.go, planLimits and its arithmetic on uint64. A uint64 is a natural number, and each sum and
-- product is taken modulo 2 ^ 64; an int64 is a ℤ. Errors keep the field that they are about.
pub mod Laws
pub mod Plan
use mydocker.Base.{
  ℕ, zero, suc, ◌+◌, ◌-◌, ◌*◌, ◌/◌, ◌%◌, ◌^◌, Bool, true, false, not, ◌&&◌, ◌||◌, Option, none,
  some, Result, ok, err, String, fail_if, ◌>>◌, ◌>>=◌, ltb, nat_beq, if◌then◌else◌,
}
use mydocker.Base.Int.{ℤ, pos, negsuc, ltb_ℤ}
use mydocker.Domain.Errors.{Check}
use mydocker.Domain.Resources.{ResolvedResourceLimits, validate_resolved, minimum_cpu_limit_milli}

pub data Error : Type 0 where
  unsupported overflows : String → Error

abbrev pub cpu_period_micros : ℕ
cpu_period_micros = 100000

abbrev pub minimum_cpu_quota_micros : ℕ
minimum_cpu_quota_micros = 1000

abbrev pub max_uint64 : ℕ
max_uint64 = 2 ^ 64 - 1

abbrev pub u64 : ℕ → ℕ
u64 n = n % 2 ^ 64

-- uint64(v) of an int64.
abbrev pub to_uint64 : ℤ → ℕ
to_uint64 (pos n) = n
to_uint64 (negsuc n) = max_uint64 - n

-- The operator & on the lowest bits of two numbers.
unfoldable pub bit_and : ℕ → ℕ → ℕ → ℕ
bit_and zero a b = 0
bit_and (suc bits) a b = a % 2 * (b % 2) + 2 * bit_and bits (a / 2) (b / 2)

pub record ScalarLimit : Type 0 where
  pub unlimited : Bool
  pub value : ℕ

pub record CpuMax : Type 0 where
  pub unlimited : Bool
  pub quota_micros : ℕ
  pub period_micros : ℕ

pub record EffectiveLimits : Type 0 where
  pub cpu : CpuMax
  pub memory : ScalarLimit
  pub pids : ScalarLimit

-- pageSize == 0 || pageSize&(pageSize-1) != 0
unfoldable pub is_bad_page : ℕ → Bool
unfolding bit_and
is_bad_page page = nat_beq page 0 || not (nat_beq (bit_and 64 page (page - 1)) 0)

-- The quota once the whole thousands and the fraction are computed.
unfoldable pub sum_quota : ℕ → ℕ → Result Error ℕ
sum_quota quota fraction = do
  fail_if (ltb (max_uint64 - fraction) quota) (overflows "cpu.max")
  fail_if (ltb (u64 (quota + fraction)) minimum_cpu_quota_micros) (unsupported "cpu.max")
  ok (u64 (quota + fraction))

unfoldable pub cpu_quota_micros : ℤ → Result Error ℕ
unfolding sum_quota
cpu_quota_micros milli = do
  fail_if (ltb_ℤ milli minimum_cpu_limit_milli) (unsupported "cpu_limit_milli")
  fail_if (ltb (max_uint64 / cpu_period_micros) (to_uint64 milli / 1000)) (overflows "cpu.max")
  sum_quota (u64 (to_uint64 milli / 1000 * cpu_period_micros))
      (u64 (u64 (to_uint64 milli % 1000 * cpu_period_micros) + 999) / 1000)

unfoldable pub round_memory_to_page : ℕ → ℕ → Result Error ℕ
unfolding is_bad_page
round_memory_to_page value page = do
  fail_if (nat_beq value 0 || is_bad_page page) (unsupported "page size")
  if nat_beq (value % page) 0 then ok value else do
    let increment = page - value % page
    fail_if (ltb (max_uint64 - increment) value) (overflows "memory.max")
    ok (u64 (value + increment))

abbrev pub or_zero : Option ℤ → ℤ
or_zero none = pos 0
or_zero (some v) = v

unfoldable pub plan_cpu : ResolvedResourceLimits → Result Error CpuMax
unfolding cpu_quota_micros
plan_cpu limits =
    if limits.cpu_unlimited
    then ok (record { unlimited = true; quota_micros = 0; period_micros = cpu_period_micros })
    else do
      quota ← cpu_quota_micros (or_zero limits.cpu_limit_milli)
      ok (record { unlimited = false; quota_micros = quota; period_micros = cpu_period_micros })

abbrev pub plan_memory : ResolvedResourceLimits → ScalarLimit
plan_memory limits =
    if limits.memory_unlimited
    then record { unlimited = true; value = 0 }
    else record { unlimited = false; value = to_uint64 (or_zero limits.memory_limit_bytes) }

-- effective.Memory.Value, rounded unless it is unlimited.
unfoldable pub effective_memory : ScalarLimit → ℕ → Result Error ScalarLimit
unfolding round_memory_to_page
effective_memory memory page = if memory.unlimited then ok memory else do
  canonical ← round_memory_to_page memory.value page
  ok (record memory { value = canonical })

abbrev pub of_domain : Check → Result Error (Unit {0})
of_domain (ok _) = ok tt
of_domain (err _) = err (unsupported "resolved_limits")

-- The raw writes, and what the host reads back.
unfoldable pub plan_limits :
    ResolvedResourceLimits → ℕ → Result Error (EffectiveLimits × EffectiveLimits)
unfolding is_bad_page plan_cpu effective_memory validate_resolved
plan_limits limits page = do
  of_domain (validate_resolved limits)
  fail_if (is_bad_page page) (unsupported "page size")
  cpu ← plan_cpu limits
  let memory = plan_memory limits
  let writes : EffectiveLimits = record {
    cpu = cpu;
    memory = memory;
    pids = record { unlimited = false; value = to_uint64 limits.pids_limit };
  }
  canonical ← effective_memory memory page
  ok (writes, record writes { memory = canonical })
