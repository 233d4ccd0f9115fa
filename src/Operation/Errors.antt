-- ===== src/Operation/Errors.antt =====
-- The errors of internal/operation. A check that fails is named by what it reads; the printed message is
-- left out. The two typed errors keep the fields that classify them.
use mydocker.Base.{Bool, true, false, String, Result}
use mydocker.Text.{Text}

pub data Error : Type 0 where
  malformed : String → Error
  within : String → Error → Error
  binding_mismatch : Text → String → Error
  active_conflict : Text → Text → Error

abbrev pub Check : Type 0
Check = Result Error (Unit {0})

-- errors.Is with ErrBindingMismatch: the chain is read to its end.
unfoldable pub is_binding_mismatch : Error → Bool
is_binding_mismatch (malformed _) = false
is_binding_mismatch (within _ e) = is_binding_mismatch e
is_binding_mismatch (binding_mismatch _ _) = true
is_binding_mismatch (active_conflict _ _) = false
