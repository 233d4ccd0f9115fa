-- ===== src/Text/Trim.antt =====
-- strings.TrimSpace: the runes of the text are read once, and the widths of the leading and of the
-- trailing white space are cut off.
use mydocker.Base.{
  ℕ, ◌+◌, ◌-◌, ◌≡◌, refl, Bool, false, List, [], ◌∷◌, arith, length, any, if◌then◌else◌, is_empty,
}
use native.Mathlib.Nat.{sub-zero}
use mydocker.Base.{take, drop, take-length}
use mydocker.Text.Utf8.{Text, Rune, runes, is_space}

-- How many bytes of leading white space there are.
leading : List Rune → ℕ
leading [] = 0
leading (r ∷ rs) = if is_space r.value then r.width + leading rs else 0

-- How many bytes of white space end the text, given how many stand before these runes.
trailing_from : ℕ → List Rune → ℕ
trailing_from n [] = n
trailing_from n (r ∷ rs) = trailing_from (if is_space r.value then n + r.width else 0) rs

cut : List Rune → Text → Text
cut rs s = let left = leading rs in take (length s - left - trailing_from 0 rs) (drop left s)

unfoldable pub trim_space : Text → Text
unfolding cut leading trailing_from is_space runes
trim_space s = cut (runes s) s

-- strings.TrimSpace(s) == ""
abbrev pub is_blank : Text → Bool
is_blank s = is_empty (trim_space s)

abbrev pub has_space : List Rune → Bool
has_space = any (λ (r : Rune). is_space r.value)

leading_none : (rs : List Rune) → has_space rs ≡ false → leading rs ≡ 0
unfolding leading
leading_none [] h = refl
leading_none (r ∷ rs) h = ground arith

trailing_none : (rs : List Rune) → has_space rs ≡ false → trailing_from 0 rs ≡ 0
unfolding trailing_from
trailing_none [] h = refl
trailing_none (r ∷ rs) h = ground (arith, trailing_none rs)

cut_none : (rs : List Rune) (s : Text) → has_space rs ≡ false → cut rs s ≡ s
unfolding cut
cut_none rs s h = rw (leading_none rs h, trailing_none rs h, sub-zero, sub-zero) (take-length s)

-- A text with no white space is its own trimmed text.
pub trim_space_none : (s : Text) → has_space (runes s) ≡ false → trim_space s ≡ s
unfolding trim_space
trim_space_none s h = cut_none (runes s) s h

pub trim_space-nil : trim_space [] ≡ []
unfolding trim_space
trim_space-nil = refl
