-- ===== src/Provider/Oom/Laws.antt =====
-- What a snapshot of the counters is, and what two of them say.
use mydocker.Base.{
  Result, ℕ, ◌≤◌, ◌<◌, ◌≡◌, ◌⊎◌, inl, inr, Bool, true, false, not, ◌||◌, ◌==◌, ok, arith, >>-eq-ok,
  fail_if-eq-ok, beq→eq, ltb, if◌then◌else◌, fail_if, Bool-cases,
}
use mydocker.Text.{Text, text_eq}
use mydocker.Domain.Outcome.{EvidenceState, evidence_true, evidence_false}
use mydocker.Operation.Target.{OperationId, Target}
use mydocker.Ownership.Receipt.{OwnerKey, owner_eq}
use mydocker.Provider.Observation.{Error, malformed}
use mydocker.Provider.Oom.{OomSnapshot, validate_oom, delta}

both : (a b : Bool) → (not a || not b) ≡ false → (a ≡ true) × (b ≡ true)
both a b h = (ground arith, ground arith)

counters : (a x b y c z : ℕ) → (ltb a x || ltb b y || ltb c z) ≡ false → (x ≤ a) × (y ≤ b) × (z ≤ c)
counters a x b y c z h = (ground arith, ground arith, ground arith)

abbrev answer : Bool → Result Error EvidenceState
answer b = if b then ok evidence_true else ok evidence_false

verdict :
    (k x g y : ℕ) (evidence : EvidenceState)
    → x ≤ k
    → y ≤ g
    → answer (ltb x k || ltb y g) ≡ ok evidence
    → (((x < k) ⊎ (y < g)) × (evidence ≡ evidence_true))
      ⊎ ((k ≡ x) × (g ≡ y) × (evidence ≡ evidence_false))
verdict k x g y evidence low lower h = elim (Bool-cases (ltb x k)) [
  | inl t ↦ inl (inl (ground arith), ground arith)
  | inr f ↦ elim (Bool-cases (ltb y g)) [
    | inl t ↦ inl (inr (ground arith), ground arith)
    | inr f' ↦ inr (ground arith, ground arith, ground arith)
  ]
]

-- No counter of the first is above that of the second.
abbrev pub Grows : OomSnapshot → OomSnapshot → Type 0
Grows earlier s =
    (earlier.oom ≤ s.oom)
    × (earlier.oom_kill ≤ s.oom_kill)
    × (earlier.oom_group_kill ≤ s.oom_group_kill)

abbrev pub Killed : OomSnapshot → OomSnapshot → Type 0
Killed earlier s = (earlier.oom_kill < s.oom_kill) ⊎ (earlier.oom_group_kill < s.oom_group_kill)

module _ (token : OperationId → Target → ℕ → Text)
    (oom_digest : OwnerKey → Text → ℕ → ℕ → ℕ → Text) where
  -- Delta gives an answer only for two valid snapshots of one cgroup with counters that have not fallen. It is
  -- true where a kill was counted between the two, and otherwise false, and never unknown.
  pub delta-eq-ok :
      (s earlier : OomSnapshot) (evidence : EvidenceState)
      → delta token oom_digest s earlier ≡ ok evidence
      → (validate_oom token oom_digest earlier ≡ ok tt)
        × (validate_oom token oom_digest s ≡ ok tt)
        × (s.owner ≡ earlier.owner)
        × (s.cgroup_evidence_sha256 ≡ earlier.cgroup_evidence_sha256)
        × Grows earlier s
        × ((Killed earlier s × (evidence ≡ evidence_true))
            ⊎ ((s.oom_kill ≡ earlier.oom_kill)
                × (s.oom_group_kill ≡ earlier.oom_group_kill)
                × (evidence ≡ evidence_false)))
  unfolding delta
  delta-eq-ok s earlier evidence h =
      let (first, a) = >>-eq-ok (validate_oom token oom_digest earlier) _ h in
      let (second, b) = >>-eq-ok (validate_oom token oom_digest s) _ a in
      let (one, c) =
        >>-eq-ok
          (fail_if
            (not (s.owner == earlier.owner)
              || not (s.cgroup_evidence_sha256 == earlier.cgroup_evidence_sha256))
            (malformed "OOM snapshots"))
          _ b in
      let (grows, d) =
        >>-eq-ok
          (fail_if
            (ltb s.oom earlier.oom
              || ltb s.oom_kill earlier.oom_kill
              || ltb s.oom_group_kill earlier.oom_group_kill)
            (malformed "OOM counters"))
          _ c in
      let scope = fail_if-eq-ok _ _ one in
      let owner : (s.owner == earlier.owner) ≡ true = (both (s.owner == earlier.owner) _ scope).0 in
      let cgroup : (s.cgroup_evidence_sha256 == earlier.cgroup_evidence_sha256) ≡ true =
        (both (s.owner == earlier.owner) _ scope).1 in
      let up =
        counters s.oom earlier.oom s.oom_kill earlier.oom_kill s.oom_group_kill
          earlier.oom_group_kill (fail_if-eq-ok _ _ grows) in
      (
        first,
        second,
        beq→eq s.owner earlier.owner owner,
        beq→eq s.cgroup_evidence_sha256 earlier.cgroup_evidence_sha256 cgroup,
        up,
        verdict s.oom_kill earlier.oom_kill s.oom_group_kill earlier.oom_group_kill evidence up.1
            up.2 d,
      )
