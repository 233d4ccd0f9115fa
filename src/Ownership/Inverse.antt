-- ===== src/Ownership/Inverse.antt =====
-- internal/ownership/model.go: the rollback descriptor of an acquisition, and the receipt read back from it.
-- The JSON of a receipt and its reading are the parameters `encode` and `decode`.
pub mod Laws
use mydocker.Base.{
  ℕ, Bool, not, ◌||◌, ◌==◌, ◌∷◌, ◌++◌, Option, none, some, Result, ok, err, fail_if, ◌>>◌, ◌>>=◌,
  if◌then◌else◌,
}
use mydocker.Text.{Text, text_eq}
use mydocker.Operation.Target.{OperationId, Target}
use mydocker.Rollback.Record.{Descriptor, validate_descriptor, rollback_schema_version}
use mydocker.Ownership.Vocabulary.{Action, is_action, action_text, action_of, valid_for, kind_text}
use mydocker.Ownership.Receipt.{Error, malformed, Receipt, validate_receipt}

module _ (token : OperationId → Target → ℕ → Text) (encode : Receipt → Text) where
  abbrev pub descriptor_of : Receipt → Action → Descriptor
  descriptor_of r action = record {
    version = rollback_schema_version;
    name = kind_text r.kind ++ b':' ∷ r.local_id;
    action = action_text action;
    target = r.owner.token;
    metadata = encode r;
  }

  unfoldable pub inverse_descriptor : Receipt → Action → Result Error Descriptor
  inverse_descriptor r action = do
    validate_receipt token r
    fail_if r.adopted (malformed "adopted resource")
    fail_if (not (valid_for action r.provider r.kind)) (malformed "ownership inverse action")
    ok (descriptor_of r action)

  -- ReceiptFromDescriptor, once the metadata is decoded.
  unfoldable pub match_descriptor : Descriptor → Receipt → Action → Result Error (Receipt × Action)
  match_descriptor d r action = do
    validate_receipt token r
    expected ← inverse_descriptor r action
    fail_if (not (d.name == expected.name) || not (d.target == expected.target))
        (malformed "rollback descriptor")
    ok (r, action)

  unfoldable pub receipt_from_descriptor :
      (Text → Option Receipt) → Descriptor → Result Error (Receipt × Action)
  unfolding match_descriptor
  receipt_from_descriptor decode d = elim (validate_descriptor d) [
    | err _ ↦ err (malformed "rollback descriptor")
    | ok _ ↦ do
      fail_if (not (is_action (action_of d.action))) (malformed "ownership inverse action")
      elim (decode d.metadata) [
        | none ↦ err (malformed "ownership receipt")
        | some r ↦ match_descriptor d r (action_of d.action)
      ]
  ]
