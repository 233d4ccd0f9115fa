-- ===== src/Domain/SandboxPhase.antt =====
-- internal/domain/phase.go, the Sandbox half.
pub mod Graph
use mydocker.Base.{Bool, true, false, not, ◌||◌, Eq, discrete_eq, ok, err, if◌then◌else◌}
use mydocker.Text.{Text, Text-discrete}
use mydocker.Domain.Errors.{Check, transition_error}

-- A phase is a string in Go: `other` stands for the spellings that are no phase.
pub data SandboxPhase : Type 0 where
  absent creating ready stopping stopped : SandboxPhase
  other : Text → SandboxPhase

unfoldable pub SandboxPhase-discrete : Discrete SandboxPhase
unfolding Text-discrete
SandboxPhase-discrete = hlevel Text-discrete

instance abbrev pub sandbox_phase_eq : Eq SandboxPhase
sandbox_phase_eq = discrete_eq SandboxPhase-discrete

unfoldable pub is_valid : SandboxPhase → Bool
is_valid (other _) = false
is_valid _ = true

-- The table of adjacent phases.
unfoldable pub allowed : SandboxPhase → SandboxPhase → Bool
allowed absent creating = true
allowed creating ready = true
allowed creating absent = true
allowed ready stopping = true
allowed stopping stopped = true
allowed stopped absent = true
allowed _ _ = false

-- On a refusal the phase comes back as it was, beside the error.
unfoldable pub transition_sandbox : SandboxPhase → SandboxPhase → SandboxPhase × Check
unfolding is_valid allowed
transition_sandbox from to =
    if not (is_valid from) || not (is_valid to) || not (allowed from to)
    then (from, err transition_error)
    else (to, ok tt)
