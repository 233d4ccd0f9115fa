-- ===== src/Base/Results.antt =====
-- A Go error as a value: `ok` is a nil error with the value returned beside it. An early
-- `return err` is the first failing action of a do block.
use mathlib.Core.Path.{◌≡◌, refl}
use mathlib.Core.Logic.{◌⊎◌, inl, inr}
use mathlib.Core.Bool.{Bool, true, false}
use mydocker.Base.Tests.{if◌then◌else◌}

pub data Result {ℓ κ} (E : Type κ) (A : Type ℓ) : Type (ℓ ⊔ κ) where
  ok : A → Result E A
  err : E → Result E A

abbrev pub ◌>>=◌ {ℓ κ ι} :
    {E : Type ι} {B : Type κ} {A : Type ℓ} → Result E A → (A → Result E B) → Result E B
ok a >>= next = next a
err e >>= next = err e

abbrev pub ◌>>◌ {κ ι} : {E : Type ι} {B : Type κ} → Result E (Unit {0}) → Result E B → Result E B
ok _ >> k = k
err e >> k = err e

infixl 5 ◌>>=◌ ◌>>◌
-- `if test { return e }`
abbrev pub fail_if {ι} : {E : Type ι} → Bool → E → Result E (Unit {0})
fail_if true e = err e
fail_if false e = ok tt

abbrev pub is_ok {ℓ ι} : {E : Type ι} {A : Type ℓ} → Result E A → Bool
is_ok (ok _) = true
is_ok (err _) = false

pub Result-cases {ℓ ι} :
    {E : Type ι} {A : Type ℓ} (r : Result E A) → ((a : A) × (r ≡ ok a)) ⊎ ((e : E) × (r ≡ err e))
Result-cases (ok a) = inl (a, refl)
Result-cases (err e) = inr (e, refl)

module _ {ι} {E : Type ι} where
  pub >>-eq-ok {κ} :
      {B : Type κ} (m : Result E (Unit {0})) (k : Result E B) {b : B}
      → (m >> k) ≡ ok b
      → (m ≡ ok tt) × (k ≡ ok b)
  >>-eq-ok (ok tt) k h = (refl, h)
  >>-eq-ok (err e) k h = cc

  pub >>=-eq-ok {ℓ κ} :
      {A : Type ℓ} {B : Type κ} (first : Result E A) (next : A → Result E B) {answer : B}
      → (first >>= next) ≡ ok answer
      → (a : A) × (next a ≡ ok answer) × (first ≡ ok a)
  >>=-eq-ok (ok a) next h = (a, h, refl)
  >>=-eq-ok (err e) next h = cc

  pub fail_if-eq-ok : (b : Bool) (e : E) → fail_if b e ≡ ok tt → b ≡ false
  fail_if-eq-ok true e h = cc
  fail_if-eq-ok false e h = refl

  -- A value returned with a nil error.
  abbrev ok_of {ℓ} : {A : Type ℓ} → A → Result E A
  ok_of a = ok a

  pub ok_injective {ℓ} : {A : Type ℓ} {a b : A} → ok_of a ≡ ok b → a ≡ b
  ok_injective h = cc

  pub if-err-eq-ok {ℓ} :
      {A : Type ℓ} (b : Bool) (e : E) (rest : Result E A) {a : A}
      → (if b then err e else rest) ≡ ok a
      → (b ≡ false) × (rest ≡ ok a)
  if-err-eq-ok true e rest h = cc
  if-err-eq-ok false e rest h = (refl, h)
