-- ===== src/Cgroup/Limits/Laws.antt =====
-- What the arithmetic of limits computes.
use mydocker.Base.{
  ℕ, ◌+◌, ◌-◌, ◌*◌, ◌/◌, ◌%◌, ◌^◌, ◌≤◌, ◌<◌, ◌≡◌, ◌↔◌, ◌⊎◌, inl, inr, refl, sym, ap, ◌∙◌, true,
  false, nat_beq, ◌||◌, ok, err, arith, ltb, nat_beq_iff, Result, subst, fail_if, Bool-cases,
  >>-eq-ok, >>=-eq-ok, ok_injective,
}
use mydocker.Base.Int.{pos, ltb_ℤ}
use mydocker.Domain.Errors.{Check}
use native.Mathlib.Nat.{mod-lt, mod-add-div, add-mod_right, mul-mod_right}
use mydocker.Cgroup.Limits.{
  of_domain, ScalarLimit, effective_memory, Error, unsupported, overflows, u64, max_uint64,
  sum_quota, cpu_quota_micros, round_memory_to_page, is_bad_page,
}

-- Where a product of the CPU limit fits in a uint64, both parts of the quota do, and their sum is that product.
quota_parts :
    (n : ℕ)
    → n < 2 ^ 63
    → n / 1000 ≤ max_uint64 / 100000
    → u64 (n / 1000 * 100000) + u64 (u64 (n % 1000 * 100000) + 999) / 1000 ≡ n * 100
quota_parts n small whole = omega arith

sum_quota-eq-ok :
    (a b q : ℕ)
    → b ≤ max_uint64
    → (sum_quota a b ≡ ok q) ↔ ((1000 ≤ a + b) × (a + b ≤ max_uint64) × (q ≡ a + b))
unfolding sum_quota
sum_quota-eq-ok a b q small = (λ h. ground arith, λ h. ground arith)

-- The quota of a CPU limit is a hundred times the limit, so the limit is a thousandth of the period for each unit, and it
-- is given exactly where the limit is at least ten and that product fits in a uint64.
pub cpu_quota_micros-eq-ok :
    (n q : ℕ)
    → n < 2 ^ 63
    → (cpu_quota_micros (pos n) ≡ ok q) ↔ ((10 ≤ n) × (n * 100 ≤ max_uint64) × (q ≡ n * 100))
unfolding cpu_quota_micros
cpu_quota_micros-eq-ok n q small =
    let whole = u64 (n / 1000 * 100000) in
    let fraction = u64 (u64 (n % 1000 * 100000) + 999) / 1000 in
    let (there, back) = sum_quota-eq-ok whole fraction q (omega arith) in
    (
      λ h.
          let (least, a) =
            >>-eq-ok (fail_if (ltb_ℤ (pos n) (pos 10)) (unsupported "cpu_limit_milli")) _ h in
          let (fits, b) =
            >>-eq-ok (fail_if (ltb (max_uint64 / 100000) (n / 1000)) (overflows "cpu.max")) _ a in
          let parts = quota_parts n small (ground arith) in
          let (low, high, same) = there b in (omega arith, omega arith, same ∙ parts),
      λ (low, high, same).
          let parts = quota_parts n small (omega arith) in
          let quota = back (omega arith, omega arith, same ∙ sym parts) in ground arith,
    )

next_multiple : (value page : ℕ) → 0 < page → (value + (page - value % page)) % page ≡ 0
next_multiple value page positive =
    let below = mod-lt value positive in
    let parts = mod-add-div value page in
    let shape : value + (page - value % page) ≡ page * (value / page) + page =
      omega (arith, below, parts) in
    ap (λ x. x % page) shape
    ∙ add-mod_right (page * (value / page)) page
    ∙ mul-mod_right page (value / page)

-- A value that is no multiple, with its rounding.
rounded_up :
    (value page : ℕ)
    → value + (page - value % page) ≤ max_uint64
    → u64 (value + (page - value % page)) ≡ value + (page - value % page)
rounded_up value page fits = omega arith

rest_positive : (n : ℕ) → nat_beq n 0 ≡ false → 0 < n
rest_positive n f = ground arith

page_positive : (page : ℕ) → is_bad_page page ≡ false → 0 < page
unfolding is_bad_page
page_positive page good = ground arith

-- What is read back of a memory limit is the least multiple of the page size from the limit on, and it is refused only
-- where that does not fit in a uint64.
pub round_memory_to_page-eq-ok :
    (value page r : ℕ)
    → value < 2 ^ 63
    → page ≤ max_uint64
    → round_memory_to_page value page ≡ ok r
    → (value ≤ r) × (r < value + page) × (r % page ≡ 0) × (r ≤ max_uint64)
unfolding round_memory_to_page
round_memory_to_page-eq-ok value page r small fits h =
    let bad = nat_beq value 0 || is_bad_page page in
    let (good, a) = >>-eq-ok (fail_if bad (unsupported "page size")) _ h in
    let positive : 0 < page = page_positive page (ground arith) in
    let below = mod-lt value positive in
    elim (Bool-cases (nat_beq (value % page) 0)) [
      | inl t ↦
          let whole : value % page ≡ 0 = (nat_beq_iff (value % page) 0).0 t in
          let same : value ≡ r = ok_injective (sym (rw t refl) ∙ a) in
          (omega arith, omega arith, ap (λ x. x % page) (sym same) ∙ whole, omega arith)
      | inr f ↦
          let room = max_uint64 - (page - value % page) in
          let (fits_in, made) =
            >>-eq-ok (fail_if (ltb room value) (overflows "memory.max")) _ (sym (rw f refl) ∙ a) in
          let rest = rest_positive (value % page) f in
          let within : value + (page - value % page) ≤ max_uint64 = ground arith in
          let same : value + (page - value % page) ≡ r =
            sym (rounded_up value page within) ∙ ok_injective made in
          (
            omega arith,
            omega arith,
            ap (λ x. x % page) (sym same) ∙ next_multiple value page positive,
            omega arith,
          )
    ]

pub of_domain-eq-ok : (r : Check) → of_domain r ≡ ok tt → r ≡ ok tt
of_domain-eq-ok (ok _) h = refl
of_domain-eq-ok (err e) h = cc

pub effective_memory-eq-ok :
    (memory effective : ScalarLimit) (page : ℕ)
    → memory.value < 2 ^ 63
    → page ≤ max_uint64
    → effective_memory memory page ≡ ok effective
    → (effective.unlimited ≡ memory.unlimited)
      × ((memory.unlimited ≡ true) × (effective ≡ memory)
          ⊎ ((memory.value ≤ effective.value)
              × (effective.value < memory.value + page)
              × (effective.value % page ≡ 0)))
unfolding effective_memory
effective_memory-eq-ok memory effective page small fits h = elim (Bool-cases memory.unlimited) [
  | inl t ↦
      let same : memory ≡ effective = ok_injective (sym (rw t refl) ∙ h) in
      (ap (λ x. x.unlimited) (sym same), inl (t, sym same))
  | inr f ↦
      let rest : (ℕ → Result Error ScalarLimit) = λ n. ok (record memory { value = n }) in
      let (canonical, made, rounded) =
        >>=-eq-ok (round_memory_to_page memory.value page) rest (sym (rw f refl) ∙ h) in
      let same = ok_injective made in
      let (above, below, multiple, _) =
        round_memory_to_page-eq-ok memory.value page canonical small fits rounded in
      (
        ap (λ x. x.unlimited) (sym same),
        inr (
            subst (λ x. (memory.value ≤ x) × (x < memory.value + page) × (x % page ≡ 0))
              (ap (λ x. x.value) same) (above, below, multiple)),
      )
]
