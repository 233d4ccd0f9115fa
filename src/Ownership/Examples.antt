-- ===== src/Ownership/Examples.antt =====
-- The theorems of ownership at concrete receipts.
use mydocker.Base.{◌≡◌, refl, some, ok}
use mydocker.Text.{text_eq}
use mydocker.Operation.Vocabulary as Verbs
use mydocker.Operation.Sample.{operation_opened}
use mydocker.Ownership.Vocabulary
use mydocker.Ownership.Vocabulary.{Provider, Kind}
use mydocker.Ownership.Inverse.{descriptor_of, inverse_descriptor, receipt_from_descriptor}
use mydocker.Ownership.Inverse.Laws.{
  receipt_from-inverse_descriptor, inverse_descriptor-receipt_from,
}
use mydocker.Ownership.Sample.{token, token-Digest, gate, encode, decode, ownership_opened}

receipt_from-inverse_descriptor_example :
    receipt_from_descriptor token encode decode
      (descriptor_of token encode gate Vocabulary.close_gate)
    ≡ ok (gate, Vocabulary.close_gate)
unfolding ownership_opened operation_opened
receipt_from-inverse_descriptor_example =
    receipt_from-inverse_descriptor token encode decode gate Vocabulary.close_gate
      (descriptor_of token encode gate Vocabulary.close_gate) token-Digest refl refl refl

inverse_descriptor-receipt_from_example :
    (inverse_descriptor token encode gate Vocabulary.close_gate
      ≡ ok (descriptor_of token encode gate Vocabulary.close_gate))
    × (decode (encode gate) ≡ some gate)
unfolding ownership_opened operation_opened
inverse_descriptor-receipt_from_example =
    inverse_descriptor-receipt_from token encode decode
      (descriptor_of token encode gate Vocabulary.close_gate) gate Vocabulary.close_gate refl
