-- ===== src/Operation/Resolve.antt =====
-- internal/operation/resolve.go
pub mod Laws
use mydocker.Base.{
  String, Bool, true, false, not, ◌||◌, ◌==◌, Option, none, some, Result, ok, err, ◌>>◌,
  if◌then◌else◌,
}
use mydocker.Text.{Text, text_eq}
use mydocker.Operation.Errors.{Error, Check, within, active_conflict}
use mydocker.Operation.Vocabulary.{is_pending_or_running}
use mydocker.Operation.Target.{Binding, target_eq, validate_binding, compare_binding}
use mydocker.Operation.Record.{Operation, binding, validate_operation}

pub data Resolution : Type 0 where
  new resume replay : Resolution

-- `fmt.Errorf("…: %w", err)` around a check.
abbrev pub wrapped : String → Check → Check
wrapped text (ok _) = ok tt
wrapped text (err e) = err (within text e)

module _ (decodes : Text → Bool) where
  unfoldable pub resolve : Option Operation → Binding → Result Error Resolution
  unfolding binding is_pending_or_running
  resolve existing requested = do
    wrapped "requested operation binding" (validate_binding requested)
    elim existing [
      | none ↦ ok new
      | some o ↦ do
        wrapped "existing operation" (validate_operation decodes o)
        compare_binding (binding o) requested
        if is_pending_or_running o.state then ok resume else ok replay
    ]

  unfoldable pub check_active_conflict : Option Operation → Binding → Check
  unfolding is_pending_or_running
  check_active_conflict active requested = do
    wrapped "requested operation binding" (validate_binding requested)
    elim active [
      | none ↦ ok tt
      | some o ↦ do
        wrapped "active operation" (validate_operation decodes o)
        if not (is_pending_or_running o.state)
              || not (o.target == requested.target)
              || o.id == requested.id
            then ok tt
            else err (active_conflict o.id requested.id)
    ]
