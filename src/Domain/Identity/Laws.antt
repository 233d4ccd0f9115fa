-- ===== src/Domain/Identity/Laws.antt =====
-- Which texts are identities.
use mydocker.Base.{
  beq_refl, ◌≤◌, ◌≡◌, ◌≢◌, refl, ◌↔◌, false, String, List, [], ◌∷◌, ok, arith, All, any, length,
}
use mydocker.Text.{text_eq, Text, Rune, runes, is_control, is_space}
use mydocker.Text.Trim.{has_space, trim_space_none}
use mydocker.Domain.Identity.{validate_id, is_unsupported}

-- A non-empty text of at most 128 bytes, none of whose runes is a control character or white space.
pub record IsIdentity (value : Text) : Type 0 where
  pub filled : value ≢ []
  pub short : length value ≤ 128
  pub plain :
      All (λ (r : Rune). (is_control r.value ≡ false) × (is_space r.value ≡ false)) (runes value)

any-is_unsupported :
    (rs : List Rune)
    → (any is_unsupported rs ≡ false)
      ↔ All (λ (r : Rune). (is_control r.value ≡ false) × (is_space r.value ≡ false)) rs
any-is_unsupported [] = (λ _. tt, λ _. refl)
any-is_unsupported (r ∷ rs) =
    let (to, from) = any-is_unsupported rs in (λ h. ground (arith, to), λ h. ground (arith, from))

any-is_space : (rs : List Rune) → any is_unsupported rs ≡ false → has_space rs ≡ false
any-is_space [] h = refl
any-is_space (r ∷ rs) h = ground (arith, any-is_space rs)

accepted : (field : String) (value : Text) → IsIdentity value → validate_id field value ≡ ok tt
unfolding validate_id
accepted field value v =
    let plain = (any-is_unsupported (runes value)).1 v.plain in
    ground
      (arith, trim_space_none value (any-is_space (runes value) plain), beq_refl value, v.filled)

-- validateID accepts exactly the identities: its test for white space around the text is implied by
-- the test of each rune.
pub validate_id-eq-ok :
    (field : String) (value : Text) → (validate_id field value ≡ ok tt) ↔ IsIdentity value
unfolding validate_id
validate_id-eq-ok field value = (
  λ h. record {
    filled = λ e. ground (arith);
    short = ground arith;
    plain = (any-is_unsupported (runes value)).0 (ground arith);
  },
  accepted field value,
)
