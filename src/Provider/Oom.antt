-- ===== src/Provider/Oom.antt =====
-- internal/provider/observation.go, the counters of an Attempt cgroup. A uint64 is a number; the digest of the
-- counters is the parameter `oom_digest`.
pub mod Laws
use mydocker.Base.{
  ℕ, Bool, true, false, not, ◌||◌, ◌==◌, [], ◌∷◌, Result, ok, err, Eq, discrete_eq, fail_if, ◌>>◌,
  ◌>>=◌, ltb, if◌then◌else◌, ℕ_discrete,
}
use mydocker.Text.{Text, Text-discrete, text_eq, bytes}
use mydocker.Domain.Outcome.{EvidenceState, evidence_true, evidence_false}
use mydocker.Operation.Target.{OperationId, Target}
use mydocker.Ownership.Vocabulary.{cgroup_v2, attempt_cgroup}
use mydocker.Ownership.Receipt.{
  OwnerKey, OwnerKey-discrete, owner_eq, Receipt, ownership_schema_version,
}
use mydocker.Provider.Observation.{Error, malformed, Check, OwnedReceiptRequest, validate_for}

pub record OomSnapshot : Type 0 where
  pub owner : OwnerKey
  pub cgroup_evidence_sha256 : Text
  pub oom : ℕ
  pub oom_kill : ℕ
  pub oom_group_kill : ℕ
  pub evidence_sha256 : Text

unfoldable pub OomSnapshot-discrete : Discrete OomSnapshot
unfolding OwnerKey-discrete Text-discrete ℕ_discrete
OomSnapshot-discrete = hlevel (OwnerKey-discrete, Text-discrete, ℕ_discrete)

instance abbrev pub snapshot_eq : Eq OomSnapshot
snapshot_eq = discrete_eq OomSnapshot-discrete

-- The receipt of the cgroup that a snapshot names.
abbrev pub scope_receipt : OwnerKey → Text → Receipt
scope_receipt owner evidence = record {
  version = ownership_schema_version;
  provider = cgroup_v2;
  kind = attempt_cgroup;
  local_id = bytes "oom-scope";
  owner = owner;
  evidence_sha256 = evidence;
  attributes = [];
  adopted = false;
}

module _ (token : OperationId → Target → ℕ → Text)
    (oom_digest : OwnerKey → Text → ℕ → ℕ → ℕ → Text) where
  unfoldable pub new_oom_snapshot : OwnedReceiptRequest → ℕ → ℕ → ℕ → Result Error OomSnapshot
  unfolding validate_for
  new_oom_snapshot scope oom oom_kill oom_group_kill = do
    validate_for token scope cgroup_v2 (attempt_cgroup ∷ [])
    ok (record {
      owner = scope.owner;
      cgroup_evidence_sha256 = scope.receipt.evidence_sha256;
      oom = oom;
      oom_kill = oom_kill;
      oom_group_kill = oom_group_kill;
      evidence_sha256 =
          oom_digest scope.owner scope.receipt.evidence_sha256 oom oom_kill oom_group_kill;
    })

  unfoldable pub validate_oom : OomSnapshot → Check
  unfolding new_oom_snapshot
  validate_oom s = do
    let scope : OwnedReceiptRequest = record {
      owner = s.owner;
      receipt = scope_receipt s.owner s.cgroup_evidence_sha256;
    }
    expected ← new_oom_snapshot scope s.oom s.oom_kill s.oom_group_kill
    fail_if (not (s.evidence_sha256 == expected.evidence_sha256))
        (malformed "OOM snapshot evidence")

  -- OOMSnapshot.Delta; the evidence beside an error, which is unknown, is left out.
  unfoldable pub delta : OomSnapshot → OomSnapshot → Result Error EvidenceState
  unfolding validate_oom
  delta s earlier = do
    validate_oom earlier
    validate_oom s
    fail_if
        (not (s.owner == earlier.owner)
          || not (s.cgroup_evidence_sha256 == earlier.cgroup_evidence_sha256))
        (malformed "OOM snapshots")
    fail_if
        (ltb s.oom earlier.oom
          || ltb s.oom_kill earlier.oom_kill
          || ltb s.oom_group_kill earlier.oom_group_kill)
        (malformed "OOM counters")
    if ltb earlier.oom_kill s.oom_kill || ltb earlier.oom_group_kill s.oom_group_kill
        then ok evidence_true
        else ok evidence_false
