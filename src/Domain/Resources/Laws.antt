-- ===== src/Domain/Resources/Laws.antt =====
-- The resource policy, stated as an order on its values.
use mydocker.Base.{◌≡◌, refl, ◌↔◌, Option, none, some, ok, arith, is_none}
use mydocker.Base.Int.{ℤ, pos, ◌≤ℤ◌}
use mydocker.Domain.Resources.{
  Resources, ResolvedResourceLimits, minimum_cpu_limit_milli, default_pids_limit, or_default,
  validate_resources, validate_resolved, resolve_resource_limits,
}

-- A value that is present is at least the bound.
abbrev pub AtLeast : ℤ → Option ℤ → Type 0
AtLeast least none = Unit
AtLeast least (some v) = least ≤ℤ v

-- Of two values that are present, the first is not above the second.
abbrev pub Within : Option ℤ → Option ℤ → Type 0
Within (some request) (some limit) = request ≤ℤ limit
Within _ _ = Unit

pub record IsPolicy (r : Resources) : Type 0 where
  pub cpu_request : AtLeast (pos 1) r.requests.cpu_request_milli
  pub memory_request : AtLeast (pos 1) r.requests.memory_request_bytes
  pub cpu_limit : AtLeast minimum_cpu_limit_milli r.limits.cpu_limit_milli
  pub memory_limit : AtLeast (pos 1) r.limits.memory_limit_bytes
  pub pids_limit : AtLeast (pos 1) r.limits.pids_limit
  pub cpu_fits : Within r.requests.cpu_request_milli r.limits.cpu_limit_milli
  pub memory_fits : Within r.requests.memory_request_bytes r.limits.memory_limit_bytes

IsPolicy-of_ok : (r : Resources) → validate_resources r ≡ ok tt → IsPolicy r
unfolding validate_resources
IsPolicy-of_ok r h = ground arith

ok_of_policy : (r : Resources) → IsPolicy r → validate_resources r ≡ ok tt
unfolding validate_resources
ok_of_policy r h = ground arith

-- Resources.Validate accepts exactly the policies in which every value present is positive, the CPU
-- limit is at least 10, and no request is above its limit.
pub validate_resources-eq-ok : (r : Resources) → (validate_resources r ≡ ok tt) ↔ IsPolicy r
validate_resources-eq-ok r = (IsPolicy-of_ok r, ok_of_policy r)

-- The limits that a policy stands for.
abbrev pub resolved_of : Resources → ResolvedResourceLimits
resolved_of r = record {
  cpu_unlimited = is_none r.limits.cpu_limit_milli;
  cpu_limit_milli = r.limits.cpu_limit_milli;
  memory_unlimited = is_none r.limits.memory_limit_bytes;
  memory_limit_bytes = r.limits.memory_limit_bytes;
  pids_limit = or_default r.limits.pids_limit default_pids_limit;
}

resolved_valid : (r : Resources) → IsPolicy r → validate_resolved (resolved_of r) ≡ ok tt
unfolding validate_resolved
resolved_valid r h = ground arith

-- ResolveResourceLimits succeeds on every policy that Resources.Validate accepts: its second check
-- never fails. What it returns passes ResolvedResourceLimits.Validate.
pub resolve_resource_limits-total :
    (r : Resources)
    → validate_resources r ≡ ok tt
    → (resolve_resource_limits r ≡ ok (resolved_of r)) × (validate_resolved (resolved_of r) ≡ ok tt)
unfolding resolve_resource_limits
resolve_resource_limits-total r h =
    let v = resolved_valid r (IsPolicy-of_ok r h) in (rw (h, v) refl, v)
