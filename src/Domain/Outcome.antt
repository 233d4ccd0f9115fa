-- ===== src/Domain/Outcome.antt =====
-- internal/domain/model.go, the terminal facts of an Attempt. An instant and a duration are a `ℤ` of
-- nanoseconds: time.Time is compared by instant only.
pub mod Laws
use mydocker.Base.{
  option_eq, bool_eq, Bool, true, false, not, ◌&&◌, ◌||◌, ◌==◌, [], Option, none, some, Eq,
  discrete_eq, ok, err, fail_if, ◌>>◌, is_empty, is_none, is_some,
}
use mydocker.Base.Int.{ℤ, pos, ltb_ℤ, int_eq, ℤ-discrete}
use mydocker.Text.{Text, Text-discrete, text_eq, contains_nul}
use mydocker.Text.Trim.{is_blank}
use mydocker.Domain.Errors.{Check, invalid}

-- Evidence and presence are strings in Go: `other` stands for the spellings with no meaning.
pub data EvidenceState : Type 0 where
  evidence_unknown evidence_false evidence_true : EvidenceState
  other_evidence : Text → EvidenceState

unfoldable pub EvidenceState-discrete : Discrete EvidenceState
unfolding Text-discrete
EvidenceState-discrete = hlevel Text-discrete

instance abbrev pub evidence_eq : Eq EvidenceState
evidence_eq = discrete_eq EvidenceState-discrete

pub data OutcomePresence : Type 0 where
  pending not_applicable captured unknown : OutcomePresence
  other_presence : Text → OutcomePresence

unfoldable pub OutcomePresence-discrete : Discrete OutcomePresence
unfolding Text-discrete
OutcomePresence-discrete = hlevel Text-discrete

instance abbrev pub presence_eq : Eq OutcomePresence
presence_eq = discrete_eq OutcomePresence-discrete

-- The only evidence of a fact is that it was seen, or seen not to be, or not seen.
abbrev pub is_valid_evidence : EvidenceState → Bool
is_valid_evidence e = e == evidence_unknown || e == evidence_false || e == evidence_true

pub record Outcome : Type 0 where
  pub presence : OutcomePresence
  pub exit_code : Option ℤ
  pub signal : Text
  pub oom : EvidenceState
  pub started_at : Option ℤ
  pub finished_at : Option ℤ
  pub running_duration : Option ℤ

abbrev blank_outcome : OutcomePresence → EvidenceState → Outcome
blank_outcome presence oom = record {
  presence = presence;
  exit_code = none;
  signal = [];
  oom = oom;
  started_at = none;
  finished_at = none;
  running_duration = none;
}

unfoldable pub pending_outcome : Outcome
pending_outcome = blank_outcome pending evidence_unknown

unfoldable pub not_applicable_outcome : Outcome
not_applicable_outcome = blank_outcome not_applicable evidence_unknown

unfoldable pub unknown_outcome : EvidenceState → Outcome
unknown_outcome oom = blank_outcome unknown oom

unfoldable pub exit_outcome : ℤ → EvidenceState → ℤ → ℤ → ℤ → Outcome
exit_outcome code oom started_at finished_at duration = record {
  presence = captured;
  exit_code = some code;
  signal = [];
  oom = oom;
  started_at = some started_at;
  finished_at = some finished_at;
  running_duration = some duration;
}

unfoldable pub signal_outcome : Text → EvidenceState → ℤ → ℤ → ℤ → Outcome
signal_outcome signal oom started_at finished_at duration = record {
  presence = captured;
  exit_code = none;
  signal = signal;
  oom = oom;
  started_at = some started_at;
  finished_at = some finished_at;
  running_duration = some duration;
}

-- value != nil && *value < 0
abbrev pub is_negative : Option ℤ → Bool
is_negative none = false
is_negative (some v) = ltb_ℤ v (pos 0)

-- The switch over the presence.
check_presence : OutcomePresence → Outcome → Check
check_presence pending o =
    fail_if
      (is_some o.exit_code
        || not (is_empty o.signal)
        || is_some o.finished_at
        || is_some o.running_duration
        || not (o.oom == evidence_unknown))
      (invalid "outcome")
check_presence not_applicable o =
    fail_if
      (is_some o.exit_code
        || not (is_empty o.signal)
        || is_some o.started_at
        || is_some o.finished_at
        || is_some o.running_duration
        || not (o.oom == evidence_unknown))
      (invalid "outcome")
check_presence captured o = do
  fail_if (is_none o.exit_code == is_empty o.signal) (invalid "outcome")
  fail_if (is_negative o.exit_code) (invalid "outcome.exit_code")
  fail_if (not (is_empty o.signal) && (is_blank o.signal || contains_nul o.signal))
      (invalid "outcome.signal")
  fail_if (is_none o.started_at || is_none o.finished_at || is_none o.running_duration)
      (invalid "outcome")
check_presence unknown o =
    fail_if (is_some o.exit_code || not (is_empty o.signal) || is_some o.running_duration)
      (invalid "outcome")
check_presence (other_presence _) o = err (invalid "outcome.presence")

unfoldable pub validate_outcome : Outcome → Check
unfolding check_presence
validate_outcome o = do
  fail_if (not (is_valid_evidence o.oom)) (invalid "outcome.oom")
  fail_if (is_negative o.running_duration) (invalid "outcome.running_duration")
  check_presence o.presence o

-- Every field is compared, the instants as instants.
unfoldable pub outcomes_equal : Outcome → Outcome → Bool
unfolding ℤ-discrete
outcomes_equal left right =
    left.presence == right.presence
    && left.signal == right.signal
    && left.oom == right.oom
    && left.exit_code == right.exit_code
    && left.started_at == right.started_at
    && left.finished_at == right.finished_at
    && left.running_duration == right.running_duration
