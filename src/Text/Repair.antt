-- ===== src/Text/Repair.antt =====
-- strings.ToValidUTF8 with the replacement U+FFFD: each run of invalid bytes becomes one replacement.
use mydocker.Base.{
  ℕ, zero, suc, ◌-◌, ◌≡◌, refl, Bool, true, false, not, ◌&&◌, List, [], ◌∷◌, arith, all, nat_beq,
  if◌then◌else◌, Bool-cases, inl, inr,
}
use mydocker.Text.Utf8.{
  Text, Rune, decode_rune, decode2, decode3, decode4, between, runes_after, valid_utf8,
}

-- The rune that an invalid byte reads as.
abbrev is_bad : Rune → Bool
is_bad r = nat_beq r.value 0xfffd && nat_beq r.width 1

-- The bytes still to come of a valid rune, and whether the bytes before are invalid.
repair : ℕ → Bool → Text → Text
unfolding decode_rune
repair skip bad [] = []
repair (suc k) bad (b ∷ s) = b ∷ repair k false s
repair zero bad (b ∷ s) =
    let dropped = repair 0 true s in
    let kept = b ∷ repair ((decode_rune b s).width - 1) false s in
    if is_bad (decode_rune b s)
    then (if bad then dropped else 0xef ∷ 0xbf ∷ 0xbd ∷ dropped)
    else kept

unfoldable pub to_valid_utf8 : Text → Text
unfolding repair
to_valid_utf8 s = repair 0 false s

abbrev well : List Rune → Bool
well = all (λ (r : Rune). not (is_bad r))

-- A rune is read from its own bytes.
same_rune :
    (b : ℕ) (s : Text)
    → is_bad (decode_rune b s) ≡ false
    → decode_rune b (repair ((decode_rune b s).width - 1) false s) ≡ decode_rune b s
unfolding decode_rune decode2 decode3 decode4 between repair
same_rune b [] h = ground arith
same_rune b (c ∷ []) h = ground arith
same_rune b (c ∷ d ∷ []) h = ground arith
same_rune b (c ∷ d ∷ e ∷ s) h = ground arith

-- The replacement is one rune that is no error.
replaced : (s : Text) → well (runes_after 0 (0xef ∷ 0xbf ∷ 0xbd ∷ s)) ≡ well (runes_after 0 s)
unfolding runes_after decode_rune decode3 between
replaced s = refl

kept_or_replaced :
    (bad : Bool) (s : Text)
    → well (runes_after 0 s) ≡ true
    → well (runes_after 0 (if bad then s else 0xef ∷ 0xbf ∷ 0xbd ∷ s)) ≡ true
kept_or_replaced true s h = h
kept_or_replaced false s h = rw (replaced s) h

well-repair :
    (skip : ℕ) (bad : Bool) (s : Text) → well (runes_after skip (repair skip bad s)) ≡ true
unfolding repair runes_after
well-repair skip bad [] = refl
well-repair (suc k) bad (b ∷ s) = well-repair k false s
well-repair zero bad (b ∷ s) = elim (Bool-cases (is_bad (decode_rune b s))) [
  | inl broken ↦ rw broken (kept_or_replaced bad (repair 0 true s) (well-repair 0 true s))
  | inr fine ↦
      rw (fine, same_rune b s fine, fine) (well-repair ((decode_rune b s).width - 1) false s)
]

-- ToValidUTF8 answers valid UTF-8.
pub valid-to_valid : (s : Text) → valid_utf8 (to_valid_utf8 s) ≡ true
unfolding valid_utf8 to_valid_utf8
valid-to_valid s = well-repair 0 false s

split_well : (x y : Bool) → (not x && y) ≡ true → (x ≡ false) × (y ≡ true)
split_well x y h = (ground arith, ground arith)

repair-well :
    (skip : ℕ) (bad : Bool) (s : Text) → well (runes_after skip s) ≡ true → repair skip bad s ≡ s
unfolding repair runes_after
repair-well skip bad [] h = refl
repair-well (suc k) bad (b ∷ s) h = rw (repair-well k false s h)
repair-well zero bad (b ∷ s) h =
    let (fine, rest) = split_well (is_bad (decode_rune b s)) _ h in
    rw (fine, repair-well ((decode_rune b s).width - 1) false s rest)

-- And it leaves valid UTF-8 as it is.
pub to_valid_valid : (s : Text) → valid_utf8 s ≡ true → to_valid_utf8 s ≡ s
unfolding valid_utf8 to_valid_utf8
to_valid_valid s h = repair-well 0 false s h
