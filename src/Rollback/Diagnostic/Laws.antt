-- ===== src/Rollback/Diagnostic/Laws.antt =====
-- Bounded diagnostics: what is stored is valid, short, and stored again as it is.
use mydocker.Base.{
  length-take_mono, ap, ◌∙◌, ◌⊎◌, sym, length-take_le, [], ℕ, zero, suc, ◌≤◌, ◌≡◌, ◌≢◌, ◌↔◌, refl,
  true, false, Bool-cases, inl, inr, ok, arith, length, take, length-take, leb,
}
use mydocker.Text.{Text, valid_utf8}
use mydocker.Text.Repair.{to_valid_utf8, valid-to_valid, to_valid_valid}
use mydocker.Text.Trim.{is_blank}
use mydocker.Operation.Vocabulary.{ReasonClass, reason_none, is_reason, reason_eq}
use mydocker.Rollback.Diagnostic.{
  max_diagnostic_bytes, cut_back, bounded_by, bounded_diagnostic, Cause, validate_cause, new_cause,
}

valid_nil : valid_utf8 [] ≡ true
unfolding valid_utf8
valid_nil = refl

valid-cut_back : (n : ℕ) (message : Text) → valid_utf8 (cut_back n message) ≡ true
unfolding cut_back
valid-cut_back zero message = valid_nil
valid-cut_back (suc n) message = elim (Bool-cases (valid_utf8 (take (suc n) message))) [
  | inl valid ↦ rw (valid, valid) refl
  | inr broken ↦ rw broken (valid-cut_back n message)
]

length-cut_back : (n : ℕ) (message : Text) → length (cut_back n message) ≤ n
unfolding cut_back
length-cut_back zero message = omega arith
length-cut_back (suc n) message = elim (Bool-cases (valid_utf8 (take (suc n) message))) [
  | inl valid ↦ rw valid (length-take (suc n) message)
  | inr broken ↦ rw broken (omega (arith, length-cut_back n message))
]

le_cases : (k n : ℕ) → k ≤ suc n → (k ≤ n) ⊎ (k ≡ suc n)
le_cases k n h = omega arith

-- No longer prefix is valid.
longest-cut_back :
    (n k : ℕ) (message : Text)
    → k ≤ n
    → valid_utf8 (take k message) ≡ true
    → length (take k message) ≤ length (cut_back n message)
unfolding cut_back
longest-cut_back zero k message h v = omega (arith, length-take k message)
longest-cut_back (suc n) k message h v = elim (Bool-cases (valid_utf8 (take (suc n) message))) [
  | inl valid ↦ rw valid (length-take_mono k (suc n) message h)
  | inr broken ↦ rw broken (longest-cut_back n k message (shorter broken) v)
]
  where
    shorter : valid_utf8 (take (suc n) message) ≡ false → k ≤ n
    shorter broken = elim (le_cases k n h) [
      | inl less ↦ less
      | inr same ↦ cc (sym v ∙ ap (λ x. valid_utf8 (take x message)) same ∙ broken)
    ]

module _ (limit : ℕ) (message : Text) where
  bounded_valid : valid_utf8 (bounded_by limit message) ≡ true
  unfolding bounded_by
  bounded_valid = elim (Bool-cases (leb (length (to_valid_utf8 message)) limit)) [
    | inl short ↦ rw short (valid-to_valid message)
    | inr long ↦ rw long (valid-cut_back limit (to_valid_utf8 message))
  ]

  bounded_length : length (bounded_by limit message) ≤ limit
  unfolding bounded_by
  bounded_length = elim (Bool-cases (leb (length (to_valid_utf8 message)) limit)) [
    | inl short ↦ rw short (ground arith)
    | inr long ↦ rw long (length-cut_back limit (to_valid_utf8 message))
  ]

  longest :
      (n : ℕ)
      → n ≤ limit
      → valid_utf8 (take n (to_valid_utf8 message)) ≡ true
      → length (take n (to_valid_utf8 message)) ≤ length (bounded_by limit message)
  unfolding bounded_by
  longest n h v = elim (Bool-cases (leb (length (to_valid_utf8 message)) limit)) [
    | inl short ↦ rw short (length-take_le n (to_valid_utf8 message))
    | inr long ↦ rw long (longest-cut_back limit n (to_valid_utf8 message) h v)
  ]

  bounded_short :
      valid_utf8 message ≡ true → length message ≤ limit → bounded_by limit message ≡ message
  unfolding bounded_by
  bounded_short v h =
      let short : leb (length message) limit ≡ true = ground arith in
      rw (to_valid_valid message v, short)

-- A bounded diagnostic is valid UTF-8 of at most 4096 bytes, and bounding it again changes nothing.
pub bounded_diagnostic_lem :
    (message : Text)
    → (valid_utf8 (bounded_diagnostic message) ≡ true)
      × (length (bounded_diagnostic message) ≤ max_diagnostic_bytes)
      × (bounded_diagnostic (bounded_diagnostic message) ≡ bounded_diagnostic message)
unfolding bounded_diagnostic
bounded_diagnostic_lem message =
    let bound = max_diagnostic_bytes in
    (
      bounded_valid bound message,
      bounded_length bound message,
      bounded_short bound (bounded_by bound message) (bounded_valid bound message)
          (bounded_length bound message),
    )

-- A bounded diagnostic is the longest valid one: no prefix of the repaired message that is valid
-- UTF-8 of at most 4096 bytes is longer.
pub bounded_diagnostic-longest :
    (message : Text) (n : ℕ)
    → n ≤ max_diagnostic_bytes
    → valid_utf8 (take n (to_valid_utf8 message)) ≡ true
    → length (take n (to_valid_utf8 message)) ≤ length (bounded_diagnostic message)
unfolding bounded_diagnostic
bounded_diagnostic-longest message n h v = longest max_diagnostic_bytes message n h v

-- NewCause succeeds exactly for a reason of the vocabulary other than `none` and a message whose
-- bounded form is not blank; its own bound never refuses, and the cause holds the bounded form.
pub new_cause-eq-ok :
    (reason : ReasonClass) (message : Text) {c : Cause}
    → (new_cause reason message ≡ ok c) ↔ (
        (is_reason reason ≡ true)
        × (reason ≢ reason_none)
        × (is_blank (bounded_diagnostic message) ≡ false)
        × (c ≡ record { reason = reason; message = bounded_diagnostic message }))
unfolding new_cause validate_cause
new_cause-eq-ok reason message =
    let (_, short, _) = bounded_diagnostic_lem message in (λ h. ground arith, λ h. ground arith)
