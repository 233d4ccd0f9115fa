-- ===== src/Cgroup.antt =====
-- internal/cgroupv2: the limits and the counters of cgroups, as types.go computes with them.
pub mod Limits
pub mod Counters
pub mod Examples
