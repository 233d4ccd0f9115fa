-- ===== src/Provider/Examples.antt =====
-- The theorem of the counters at two concrete snapshots.
use mydocker.Base.{ℕ, ◌≡◌, ◌⊎◌, refl, ok}
use mydocker.Text.{Text}
use mydocker.Domain.Outcome.{evidence_false, evidence_true}
use mydocker.Operation.Sample.{operation_opened}
use mydocker.Ownership.Receipt.{OwnerKey}
use mydocker.Ownership.Sample.{token, owner, digest, ownership_opened}
use mydocker.Provider.Observation
use mydocker.Provider.Oom.{OomSnapshot, validate_oom, new_oom_snapshot, delta}
use mydocker.Provider.Oom.Laws.{delta-eq-ok, Grows, Killed}

abbrev oom_digest : OwnerKey → Text → ℕ → ℕ → ℕ → Text
oom_digest _ evidence a b c = digest

abbrev counted : ℕ → OomSnapshot
counted kills = record {
  owner = owner;
  cgroup_evidence_sha256 = digest;
  oom = 3;
  oom_kill = kills;
  oom_group_kill = 0;
  evidence_sha256 = digest;
}

delta-eq-ok_example :
    (validate_oom token oom_digest (counted 1) ≡ ok tt)
    × (validate_oom token oom_digest (counted 2) ≡ ok tt)
    × (owner ≡ owner)
    × (digest ≡ digest)
    × Grows (counted 1) (counted 2)
    × ((Killed (counted 1) (counted 2) × (evidence_true ≡ evidence_true))
        ⊎ (((counted 2).oom_kill ≡ 1)
            × ((counted 2).oom_group_kill ≡ 0)
            × (evidence_true ≡ evidence_false)))
unfolding ownership_opened operation_opened delta validate_oom new_oom_snapshot
    Observation.validate_for
delta-eq-ok_example = delta-eq-ok token oom_digest (counted 2) (counted 1) evidence_true refl
