-- ===== src/LogStore/Bytes.antt =====
-- The calls of encoding/binary in internal/logstore/format.go: big-endian numbers of a fixed count of bytes.
use mydocker.Base.{
  ℕ, zero, suc, ◌+◌, ◌-◌, ◌*◌, ◌/◌, ◌%◌, ◌^◌, ◌<◌, ◌≡◌, refl, ap, ◌∙◌, List, [], ◌∷◌, ◌++◌, arith,
  take, drop, length,
}

-- PutUint16, PutUint32 and PutUint64, of 2, 4 and 8 bytes: the lowest ones of the number.
unfoldable pub put_uint : ℕ → ℕ → List ℕ
put_uint zero n = []
put_uint (suc count) n = put_uint count (n / 256) ++ n % 256 ∷ []

-- Uint16, Uint32 and Uint64, with the number of the bytes before.
unfoldable pub get_uint_from : ℕ → List ℕ → ℕ
get_uint_from n [] = n
get_uint_from n (b ∷ bs) = get_uint_from (n * 256 + b) bs

unfoldable pub get_uint : List ℕ → ℕ
unfolding get_uint_from
get_uint bs = get_uint_from 0 bs

-- bytes[low:high]
abbrev pub slice {ℓ} : {A : Type ℓ} → ℕ → ℕ → List A → List A
slice low high xs = take (high - low) (drop low xs)

get_uint_from-append :
    (n : ℕ) (bs : List ℕ) (b : ℕ) → get_uint_from n (bs ++ b ∷ []) ≡ get_uint_from n bs * 256 + b
unfolding get_uint_from
get_uint_from-append n [] b = refl
get_uint_from-append n (x ∷ bs) b = get_uint_from-append (n * 256 + x) bs b

-- What is put is got back, where it fits in the bytes.
pub get_uint-put_uint : (count n : ℕ) → n < 256 ^ count → get_uint (put_uint count n) ≡ n
unfolding get_uint put_uint get_uint_from
get_uint-put_uint zero n small = omega arith
get_uint-put_uint (suc count) n small =
    let rest : n / 256 < 256 ^ count = grind arith in
    get_uint_from-append 0 (put_uint count (n / 256)) (n % 256)
    ∙ omega (arith, get_uint-put_uint count (n / 256) rest)

module _ {ℓ} {A : Type ℓ} where
  pub take-append : (xs ys : List A) → take (length xs) (xs ++ ys) ≡ xs
  take-append [] ys = refl
  take-append (x ∷ xs) ys = ap (λ zs. x ∷ zs) (take-append xs ys)

  pub drop-append : (xs ys : List A) → drop (length xs) (xs ++ ys) ≡ ys
  drop-append [] ys = refl
  drop-append (x ∷ xs) ys = drop-append xs ys
