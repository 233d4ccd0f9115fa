-- ===== src/Cgroup/Counters.antt =====
-- internal/cgroupv2/types.go, the OOM counters of an Attempt cgroup.
use mydocker.Base.{ℕ, ◌-◌, Bool, ◌||◌, Result, ok, fail_if, ◌>>◌, ltb}
use mydocker.Cgroup.Limits.{Error, unsupported}

pub record OomCounters : Type 0 where
  pub oom : ℕ
  pub oom_kill : ℕ
  pub oom_group_kill : ℕ

-- OOMDelta.Killed.
unfoldable pub killed : OomCounters → Bool
killed d = ltb 0 d.oom_kill || ltb 0 d.oom_group_kill

unfoldable pub counters_delta : OomCounters → OomCounters → Result Error OomCounters
counters_delta s earlier = do
  fail_if
      (ltb s.oom earlier.oom
        || ltb s.oom_kill earlier.oom_kill
        || ltb s.oom_group_kill earlier.oom_group_kill)
      (unsupported "OOM counters")
  ok (record {
    oom = s.oom - earlier.oom;
    oom_kill = s.oom_kill - earlier.oom_kill;
    oom_group_kill = s.oom_group_kill - earlier.oom_group_kill;
  })
