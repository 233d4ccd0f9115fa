-- ===== src/Text/Utf8.antt =====
-- Bytes and runes. `range` over a string and the functions of unicode see the runes that
-- `decode_rune` reads; an invalid byte reads as U+FFFD of width 1, as in Go.
use Prim.Native.Char.{code}
use Prim.Native.String.{String}
use mydocker.Base.{
  ℕ, zero, suc, ◌+◌, ◌-◌, ◌*◌, Bool, ◌&&◌, ◌||◌, List, [], ◌∷◌, ℕ_discrete, ltb, leb, nat_beq,
  if◌then◌else◌, Eq, discrete_eq, any, all, not,
}

abbrev pub Text : Type 0
Text = List ℕ

-- The bytes of an ASCII literal.
abbrev pub bytes : String → Text
bytes String.[] = []
bytes (String.◌∷◌ c s) = code c ∷ bytes s

unfoldable pub Text-discrete : Discrete Text
unfolding ℕ_discrete
Text-discrete = hlevel ℕ_discrete

instance abbrev pub text_eq : Eq Text
text_eq = discrete_eq Text-discrete

unfoldable pub between : ℕ → ℕ → ℕ → Bool
between lo hi b = leb lo b && leb b hi

abbrev pub Rune : Type 0
Rune = record { value : ℕ; width : ℕ }

abbrev rune_error : Rune
rune_error = record { value = 0xfffd; width = 1 }

unfoldable pub decode2 : ℕ → Text → Rune
unfolding between
decode2 a (b ∷ _) =
    if between 0x80 0xbf b
    then record { value = (a - 0xc0) * 64 + (b - 0x80); width = 2 }
    else rune_error
decode2 a _ = rune_error

-- The second byte of the overlong and surrogate ranges is restricted.
unfoldable pub decode3 : ℕ → Text → Rune
unfolding between
decode3 a (b ∷ c ∷ _) =
    if between (if nat_beq a 0xe0 then 0xa0 else 0x80) (if nat_beq a 0xed then 0x9f else 0xbf) b
      && between 0x80 0xbf c
    then record { value = ((a - 0xe0) * 64 + (b - 0x80)) * 64 + (c - 0x80); width = 3 }
    else rune_error
decode3 a _ = rune_error

unfoldable pub decode4 : ℕ → Text → Rune
unfolding between
decode4 a (b ∷ c ∷ d ∷ _) =
    if between (if nat_beq a 0xf0 then 0x90 else 0x80) (if nat_beq a 0xf4 then 0x8f else 0xbf) b
      && between 0x80 0xbf c
      && between 0x80 0xbf d
    then record {
      value = (((a - 0xf0) * 64 + (b - 0x80)) * 64 + (c - 0x80)) * 64 + (d - 0x80);
      width = 4;
    }
    else rune_error
decode4 a _ = rune_error

-- utf8.DecodeRuneInString of a non-empty string.
unfoldable pub decode_rune : ℕ → Text → Rune
unfolding between decode2 decode3 decode4
decode_rune a rest =
    if ltb a 0x80
    then record { value = a; width = 1 }
    else if between 0xc2 0xdf a
    then decode2 a rest
    else if between 0xe0 0xef a
    then decode3 a rest
    else if between 0xf0 0xf4 a
    then decode4 a rest
    else rune_error

-- The runes, once the given number of bytes is passed over.
unfoldable pub runes_after : ℕ → Text → List Rune
runes_after skip [] = []
runes_after (suc k) (b ∷ s) = runes_after k s
runes_after zero (b ∷ s) = let r = decode_rune b s in r ∷ runes_after (r.width - 1) s

unfoldable pub runes : Text → List Rune
unfolding runes_after decode_rune
runes s = runes_after 0 s

unfoldable pub is_space : ℕ → Bool
unfolding between
is_space r =
    between 9 13 r
    || nat_beq r 0x20
    || nat_beq r 0x85
    || nat_beq r 0xa0
    || nat_beq r 0x1680
    || between 0x2000 0x200a r
    || nat_beq r 0x2028
    || nat_beq r 0x2029
    || nat_beq r 0x202f
    || nat_beq r 0x205f
    || nat_beq r 0x3000

unfoldable pub is_control : ℕ → Bool
unfolding between
is_control r = leb r 0x1f || between 0x7f 0x9f r

unfoldable pub valid_utf8 : Text → Bool
unfolding runes
valid_utf8 s = all (λ (r : Rune). not (nat_beq r.value 0xfffd && nat_beq r.width 1)) (runes s)

-- strings.ContainsRune(s, 0): an ASCII rune is searched as a byte.
abbrev pub contains_nul : Text → Bool
contains_nul = any (λ b. nat_beq b 0)
