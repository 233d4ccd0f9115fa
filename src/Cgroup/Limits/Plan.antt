-- ===== src/Cgroup/Limits/Plan.antt =====
-- What a plan of limits writes, and what it expects to read back.
use mydocker.Base.{
  ◌>>=◌, Option, some, Option-cases, ℕ, ◌+◌, ◌*◌, ◌%◌, ◌^◌, ◌≤◌, ◌<◌, ◌≡◌, ◌⊎◌, inl, inr, refl, sym,
  ap, ◌∙◌, true, false, ok, arith, subst, fail_if, Bool-cases, >>-eq-ok, >>=-eq-ok, ok_injective,
}
use mydocker.Base.Int.{ℤ, negsuc, pos}
use mydocker.Domain.Resources.{ResolvedResourceLimits, validate_resolved}
use mydocker.Cgroup.Limits.{
  CpuMax, of_domain, EffectiveLimits, plan_memory, plan_cpu, plan_limits, effective_memory,
  unsupported, max_uint64, cpu_quota_micros, is_bad_page,
}
use mydocker.Cgroup.Limits.Laws.{cpu_quota_micros-eq-ok, effective_memory-eq-ok, of_domain-eq-ok}

-- The raw writes that resolved limits ask for: a quota of a hundred microseconds for each unit of a finite CPU limit
-- in a period of 100000, a finite memory limit and the limit of processes as they are.
pub record IsWritten (limits : ResolvedResourceLimits) (writes : EffectiveLimits) : Type 0 where
  pub cpu :
      ((limits.cpu_unlimited ≡ true)
        × (writes.cpu ≡ record { unlimited = true; quota_micros = 0; period_micros = 100000 }))
      ⊎ ((n : ℕ) × (limits.cpu_unlimited ≡ false)
          × (limits.cpu_limit_milli ≡ some (pos n))
          × (writes.cpu
              ≡ record { unlimited = false; quota_micros = n * 100; period_micros = 100000 }))
  pub memory :
      ((limits.memory_unlimited ≡ true) × (writes.memory ≡ record { unlimited = true; value = 0 }))
      ⊎ ((m : ℕ) × (limits.memory_unlimited ≡ false)
          × (limits.memory_limit_bytes ≡ some (pos m))
          × (writes.memory ≡ record { unlimited = false; value = m }))
  pub pids :
      (k : ℕ) × (limits.pids_limit ≡ pos k)
      × (writes.pids ≡ record { unlimited = false; value = k })

-- What the host reads back of the raw writes.
abbrev pub IsReadBack : ℕ → EffectiveLimits → EffectiveLimits → Type 0
IsReadBack page writes effective =
    (effective.cpu ≡ writes.cpu)
    × (effective.pids ≡ writes.pids)
    × (effective.memory.unlimited ≡ writes.memory.unlimited)
    × ((writes.memory.unlimited ≡ true) × (effective.memory ≡ writes.memory)
        ⊎ ((writes.memory.value ≤ effective.memory.value)
            × (effective.memory.value < writes.memory.value + page)
            × (effective.memory.value % page ≡ 0)))

-- A limit that is present is an int64.
abbrev pub IsInt64 : Option ℤ → Type 0
IsInt64 limit = (n : ℕ) → limit ≡ some (pos n) → n < 2 ^ 63

finite_memory :
    (limits : ResolvedResourceLimits)
    → validate_resolved limits ≡ ok tt
    → limits.memory_unlimited ≡ false
    → (m : ℕ) × (limits.memory_limit_bytes ≡ some (pos m))
unfolding validate_resolved
finite_memory limits v f = elim (Option-cases limits.memory_limit_bytes) [
  | inl e ↦ absurd (ground arith)
  | inr (pos m, e) ↦ (m, e)
  | inr (negsuc m, e) ↦ absurd (ground arith)
]

finite_cpu :
    (limits : ResolvedResourceLimits)
    → validate_resolved limits ≡ ok tt
    → limits.cpu_unlimited ≡ false
    → (n : ℕ) × (limits.cpu_limit_milli ≡ some (pos n))
unfolding validate_resolved
finite_cpu limits v f = elim (Option-cases limits.cpu_limit_milli) [
  | inl e ↦ absurd (ground arith)
  | inr (pos m, e) ↦ (m, e)
  | inr (negsuc m, e) ↦ absurd (ground arith)
]

positive_pids :
    (limits : ResolvedResourceLimits) (k : ℤ)
    → limits.pids_limit ≡ k
    → validate_resolved limits ≡ ok tt
    → (j : ℕ) × (k ≡ pos j)
unfolding validate_resolved
positive_pids limits (pos j) e v = (j, refl)
positive_pids limits (negsuc j) e v = absurd (ground arith)

memory_written :
    (limits : ResolvedResourceLimits)
    → validate_resolved limits ≡ ok tt
    → ((limits.memory_unlimited ≡ true)
        × (plan_memory limits ≡ record { unlimited = true; value = 0 }))
      ⊎ ((m : ℕ) × (limits.memory_unlimited ≡ false)
          × (limits.memory_limit_bytes ≡ some (pos m))
          × (plan_memory limits ≡ record { unlimited = false; value = m }))
memory_written limits v = elim (Bool-cases limits.memory_unlimited) [
  | inl t ↦ inl (t, rw t refl)
  | inr f ↦ let (m, e) = finite_memory limits v f in inr (m, f, e, rw (f, e) refl)
]

cpu_written :
    (limits : ResolvedResourceLimits) (cpu : CpuMax)
    → IsInt64 limits.cpu_limit_milli
    → validate_resolved limits ≡ ok tt
    → plan_cpu limits ≡ ok cpu
    → ((limits.cpu_unlimited ≡ true)
        × (cpu ≡ record { unlimited = true; quota_micros = 0; period_micros = 100000 }))
      ⊎ ((n : ℕ) × (limits.cpu_unlimited ≡ false)
          × (limits.cpu_limit_milli ≡ some (pos n))
          × (cpu ≡ record { unlimited = false; quota_micros = n * 100; period_micros = 100000 }))
unfolding plan_cpu
cpu_written limits cpu small v h = elim (Bool-cases limits.cpu_unlimited) [
  | inl t ↦ inl (t, sym (ok_injective (sym (rw t refl) ∙ h)))
  | inr f ↦
      let (n, e) = finite_cpu limits v f in
      let quoted : (ℕ → CpuMax) =
        λ q. record { unlimited = false; quota_micros = q; period_micros = 100000 } in
      let plan : plan_cpu limits ≡ (do q ← cpu_quota_micros (pos n); ok (quoted q)) =
        rw (plan_cpu, f, e) refl in
      let (quota, made, asked) =
        >>=-eq-ok (cpu_quota_micros (pos n)) (λ q. ok (quoted q)) (sym plan ∙ h) in
      let (_, _, same) = (cpu_quota_micros-eq-ok n quota (small n e)).0 asked in
      inr (n, f, e, sym (ok_injective made) ∙ ap quoted same)
]

memory_small :
    (limits : ResolvedResourceLimits)
    → IsInt64 limits.memory_limit_bytes
    → validate_resolved limits ≡ ok tt
    → (plan_memory limits).value < 2 ^ 63
memory_small limits small v = elim (memory_written limits v) [
  | inl (t, e) ↦ rw e (omega arith)
  | inr (m, f, found, e) ↦ rw e (small m found)
]

-- A plan is made only of limits that are valid. It writes a finite CPU limit as a quota of a hundred microseconds a unit
-- in a period of 100000, a finite memory limit and the limit of processes as they are, and for an unlimited
-- CPU or memory that it is unlimited. It expects back what it writes of CPU and processes, and of a finite
-- memory limit the multiple of the page size that is at or above it by less than a page. The CPU and memory
-- limits are int64, and the page size is a uint64.
pub plan_limits-eq-ok :
    (limits : ResolvedResourceLimits) (page : ℕ) (writes effective : EffectiveLimits)
    → IsInt64 limits.cpu_limit_milli
    → IsInt64 limits.memory_limit_bytes
    → page ≤ max_uint64
    → plan_limits limits page ≡ ok (writes, effective)
    → (validate_resolved limits ≡ ok tt)
      × IsWritten limits writes
      × IsReadBack page writes effective
unfolding plan_limits
plan_limits-eq-ok limits page writes effective fits_cpu fits_memory fits h =
    let (checked, a) = >>-eq-ok (of_domain (validate_resolved limits)) _ h in
    let (_, b) = >>-eq-ok (fail_if (is_bad_page page) (unsupported "page size")) _ a in
    let (cpu, c, planned) = >>=-eq-ok (plan_cpu limits) _ b in
    let (memory, made, read) = >>=-eq-ok (effective_memory (plan_memory limits) page) _ c in
    let valid = of_domain-eq-ok (validate_resolved limits) checked in
    let (kind, size) =
      effective_memory-eq-ok (plan_memory limits) memory page
        (memory_small limits fits_memory valid) fits read in
    let (k, pids) = positive_pids limits limits.pids_limit refl valid in
    (
      valid,
      subst (λ (x : EffectiveLimits × EffectiveLimits). IsWritten limits x.0) (ok_injective made)
          (record {
            cpu = cpu_written limits cpu fits_cpu valid planned;
            memory = memory_written limits valid;
            pids = (k, pids, rw pids refl);
          }),
      subst (λ (x : EffectiveLimits × EffectiveLimits). IsReadBack page x.0 x.1) (ok_injective made)
          (refl, refl, kind, size),
    )
