-- ===== src/Domain/Process.antt =====
-- internal/domain/process.go. A time.Duration is a `ℤ` of nanoseconds.
pub mod Laws
use mydocker.Base.{
  ℕ, Bool, true, false, not, ◌&&◌, ◌||◌, ◌==◌, List, [], ◌∷◌, Result, ok, err, fail_if, ◌>>◌, ◌>>=◌,
  is_empty, any, if◌then◌else◌, nat_beq,
}
use mydocker.Base.Int.{ℤ, pos, ltb_ℤ, int_eq, ℤ-discrete}
use mydocker.Text.{Text, contains_nul}
use mydocker.Text.Trim.{is_blank}
use mydocker.Text.FilePath.{is_clean_abs}
use mydocker.Domain.Errors.{Error, Check, invalid}

pub record EnvVar : Type 0 where
  pub name : Text
  pub value : Text

unfoldable pub validate_env_var : EnvVar → Check
validate_env_var v = do
  fail_if (is_empty v.name) (invalid "environment.name")
  fail_if (any (λ b. nat_beq b b'=' || nat_beq b 0) v.name) (invalid "environment.name")
  fail_if (contains_nul v.value) (invalid "environment.value")

pub record TerminationPolicy : Type 0 where
  pub signal : Text
  pub grace_period : ℤ
  pub escalation_signal : Text

unfoldable pub validate_termination : TerminationPolicy → Check
validate_termination p = do
  fail_if (ltb_ℤ p.grace_period (pos 0)) (invalid "termination.grace_period")
  if is_empty p.signal && p.grace_period == pos 0 && is_empty p.escalation_signal then ok tt else do
    fail_if (is_blank p.signal || contains_nul p.signal) (invalid "termination.signal")
    fail_if (is_blank p.escalation_signal || contains_nul p.escalation_signal)
        (invalid "termination.escalation_signal")

pub record ProcessSpec : Type 0 where
  pub argv : List Text
  pub environment : List EnvVar
  pub working_directory : Text
  pub termination : TerminationPolicy

abbrev pub executable_missing : List Text → Bool
executable_missing [] = true
executable_missing (a ∷ _) = is_empty a

abbrev pub executable_clean : List Text → Bool
executable_clean [] = true
executable_clean (a ∷ _) = is_clean_abs a

abbrev pub validate_environment : List EnvVar → Check
validate_environment [] = ok tt
validate_environment (v ∷ vs) = validate_env_var v >> validate_environment vs

unfoldable pub validate_process : ProcessSpec → Check
validate_process p = do
  fail_if (executable_missing p.argv) (invalid "argv")
  fail_if (not (executable_clean p.argv)) (invalid "argv[0]")
  fail_if (any contains_nul p.argv) (invalid "argv")
  validate_environment p.environment
  fail_if (contains_nul p.working_directory) (invalid "working_directory")
  fail_if (not (is_empty p.working_directory) && not (is_clean_abs p.working_directory))
      (invalid "working_directory")
  validate_termination p.termination

pub record KillPlan : Type 0 where
  pub signal : Text
  pub grace_period : ℤ
  pub escalation_signal : Text

unfoldable pub new_kill_plan : TerminationPolicy → Result Error KillPlan
unfolding validate_termination
new_kill_plan policy = do
  validate_termination policy
  fail_if (is_empty policy.signal) (invalid "termination")
  ok (record {
    signal = policy.signal;
    grace_period = policy.grace_period;
    escalation_signal = policy.escalation_signal;
  })
