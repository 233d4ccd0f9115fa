-- ===== src/Domain/Errors.antt =====
-- internal/domain/errors.go. An error carries its code, its field and the error that it wraps; the
-- human-readable message, which no code reads, is left out.
use mydocker.Base.{Bool, String, ℕ, Eq, discrete_eq, ◌==◌, Result}

pub data ErrorCode : Type 0 where
  invalid_argument invalid_transition not_found already_exists : ErrorCode
  failed_precondition conflict unsafe_identity outcome_unknown : ErrorCode

unfoldable pub ErrorCode-discrete : Discrete ErrorCode
ErrorCode-discrete = hlevel

instance abbrev pub error_code_eq : Eq ErrorCode
error_code_eq = discrete_eq ErrorCode-discrete

-- A field's name, or the name and index that fmt.Sprintf("%s[%d]") prints.
pub data Field : Type 0 where
  named : String → Field
  indexed : String → ℕ → Field

pub data Error : Type 0 where
  new_error : ErrorCode → Field → Error
  wrap_error : ErrorCode → Field → Error → Error

abbrev pub code_of : Error → ErrorCode
code_of (new_error c _) = c
code_of (wrap_error c _ _) = c

-- errors.As stops at the outermost coded error of the chain.
unfoldable pub is_code : Error → ErrorCode → Bool
unfolding ErrorCode-discrete
is_code e c = code_of e == c

-- A nil error, or an error.
abbrev pub Check : Type 0
Check = Result Error (Unit {0})

abbrev pub invalid : String → Error
invalid field = new_error ErrorCode.invalid_argument (Field.named field)

unfoldable pub transition_error : Error
transition_error = new_error ErrorCode.invalid_transition (Field.named "phase")
