-- ===== src/Domain/Resources.antt =====
-- internal/domain/resources.go. An optional int64 is an `Option ℤ`; a Clone, which keeps the values
-- and gives them storage of their own, is the identity on values.
pub mod Laws
use mydocker.Base.{
  Bool, true, false, not, ◌&&◌, ◌||◌, String, List, [], ◌∷◌, Option, none, some, Result, ok, err,
  fail_if, ◌>>◌, ◌>>=◌, is_none, is_some, if◌then◌else◌,
}
use mydocker.Base.Int.{ℤ, pos, ltb_ℤ}
use mydocker.Domain.Errors.{Error, Check, invalid}

abbrev pub minimum_cpu_limit_milli : ℤ
minimum_cpu_limit_milli = pos 10

abbrev pub default_pids_limit : ℤ
default_pids_limit = pos 1024

pub record ResourceRequests : Type 0 where
  pub cpu_request_milli : Option ℤ
  pub memory_request_bytes : Option ℤ

pub record ResourceLimits : Type 0 where
  pub cpu_limit_milli : Option ℤ
  pub memory_limit_bytes : Option ℤ
  pub pids_limit : Option ℤ

pub record Resources : Type 0 where
  pub requests : ResourceRequests
  pub limits : ResourceLimits

pub record ResolvedResourceLimits : Type 0 where
  pub cpu_unlimited : Bool
  pub cpu_limit_milli : Option ℤ
  pub memory_unlimited : Bool
  pub memory_limit_bytes : Option ℤ
  pub pids_limit : ℤ

-- value != nil && *value <= 0
abbrev pub non_positive : Option ℤ → Bool
non_positive none = false
non_positive (some v) = not (ltb_ℤ (pos 0) v)

-- value != nil && *value < least
abbrev pub is_below : ℤ → Option ℤ → Bool
is_below least none = false
is_below least (some v) = ltb_ℤ v least

unfoldable pub exceeds : Option ℤ → Option ℤ → Bool
exceeds (some request) (some limit) = ltb_ℤ limit request
exceeds _ _ = false

-- The loop over the named fields.
abbrev pub all_positive : List (String × Option ℤ) → Check
all_positive [] = ok tt
all_positive ((name, value) ∷ fields) =
    fail_if (non_positive value) (invalid name) >> all_positive fields

unfoldable pub validate_resources : Resources → Check
unfolding exceeds
validate_resources r = do
  all_positive (
      ("cpu_request_milli", r.requests.cpu_request_milli)
      ∷ ("memory_request_bytes", r.requests.memory_request_bytes)
      ∷ ("cpu_limit_milli", r.limits.cpu_limit_milli)
      ∷ ("memory_limit_bytes", r.limits.memory_limit_bytes)
      ∷ ("pids_limit", r.limits.pids_limit)
      ∷ [])
  fail_if (is_below minimum_cpu_limit_milli r.limits.cpu_limit_milli) (invalid "cpu_limit_milli")
  fail_if (exceeds r.requests.cpu_request_milli r.limits.cpu_limit_milli)
      (invalid "cpu_request_milli")
  fail_if (exceeds r.requests.memory_request_bytes r.limits.memory_limit_bytes)
      (invalid "memory_request_bytes")

unfoldable pub validate_resolved : ResolvedResourceLimits → Check
validate_resolved r = do
  if r.cpu_unlimited
      then fail_if (is_some r.cpu_limit_milli) (invalid "resolved_limits.cpu")
      else fail_if (is_none r.cpu_limit_milli || is_below minimum_cpu_limit_milli r.cpu_limit_milli)
          (invalid "resolved_limits.cpu_limit_milli")
  if r.memory_unlimited
      then fail_if (is_some r.memory_limit_bytes) (invalid "resolved_limits.memory")
      else fail_if (is_none r.memory_limit_bytes || non_positive r.memory_limit_bytes)
          (invalid "resolved_limits.memory_limit_bytes")
  fail_if (not (ltb_ℤ (pos 0) r.pids_limit)) (invalid "resolved_limits.pids_limit")

abbrev pub or_default : Option ℤ → ℤ → ℤ
or_default none d = d
or_default (some v) d = v

unfoldable pub resolve_resource_limits : Resources → Result Error ResolvedResourceLimits
resolve_resource_limits resources = do
  validate_resources resources
  let limits = resources.limits
  let resolved : ResolvedResourceLimits = record {
    cpu_unlimited = is_none limits.cpu_limit_milli;
    cpu_limit_milli = limits.cpu_limit_milli;
    memory_unlimited = is_none limits.memory_limit_bytes;
    memory_limit_bytes = limits.memory_limit_bytes;
    pids_limit = or_default limits.pids_limit default_pids_limit;
  }
  validate_resolved resolved
  ok resolved
