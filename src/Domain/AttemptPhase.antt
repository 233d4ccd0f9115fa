-- ===== src/Domain/AttemptPhase.antt =====
-- internal/domain/phase.go, the Attempt half.
pub mod Graph
use mydocker.Base.{Bool, true, false, not, ◌||◌, ◌==◌, Eq, discrete_eq, ok, err, if◌then◌else◌}
use mydocker.Text.{Text, Text-discrete}
use mydocker.Domain.Errors.{Check, transition_error}

-- A phase is a string in Go: `other` stands for the spellings that are no phase.
pub data AttemptPhase : Type 0 where
  absent creating created running stopped : AttemptPhase
  other : Text → AttemptPhase

unfoldable pub AttemptPhase-discrete : Discrete AttemptPhase
unfolding Text-discrete
AttemptPhase-discrete = hlevel Text-discrete

instance abbrev pub attempt_phase_eq : Eq AttemptPhase
attempt_phase_eq = discrete_eq AttemptPhase-discrete

unfoldable pub is_valid : AttemptPhase → Bool
is_valid (other _) = false
is_valid _ = true

-- The table of adjacent phases.
unfoldable pub allowed : AttemptPhase → AttemptPhase → Bool
allowed absent creating = true
allowed creating created = true
allowed creating stopped = true
allowed created running = true
allowed created stopped = true
allowed running stopped = true
allowed stopped absent = true
allowed _ _ = false

-- On a refusal the phase comes back as it was, beside the error.
unfoldable pub transition_attempt : AttemptPhase → AttemptPhase → AttemptPhase × Check
unfolding is_valid allowed
transition_attempt from to =
    if not (is_valid from) || not (is_valid to) || not (allowed from to)
    then (from, err transition_error)
    else (to, ok tt)

-- Whether a phase keeps another Attempt out of its Sandbox.
abbrev pub is_active_attempt : AttemptPhase → Bool
is_active_attempt phase = phase == creating || phase == created || phase == running
