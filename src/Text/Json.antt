-- ===== src/Text/Json.antt =====
-- json.Valid: the scanner of encoding/json, as an automaton over the bytes with its stack of open brackets.
use mydocker.Base.{
  ℕ, zero, suc, ◌+◌, Bool, true, false, ◌&&◌, ◌||◌, List, [], ◌∷◌, Option, none, some, leb, ltb,
  nat_beq, length, if◌then◌else◌, is_empty,
}
use mydocker.Text.Utf8.{Text, bytes}

-- An open bracket: an object before the colon of a member, one behind it, or an array.
pub data Frame : Type 0 where
  key member item : Frame

-- What the scanner reads next.
pub data Expect : Type 0 where
  a_value first_item first_key a_key : Expect
  -- Behind a value: a comma, a colon, a bracket, or the end.
  after : Expect
  in_string escape : Expect
  hex : ℕ → Expect
  minus leading_zero digits : Expect
  point fraction : Expect
  exponent exponent_sign exponent_digits : Expect
  -- The rest of `true`, `false` or `null`.
  word : Text → Expect

pub record Scanner : Type 0 where
  pub expect : Expect
  pub stack : List Frame

abbrev max_nesting_depth : ℕ
max_nesting_depth = 10000

abbrev is_json_space : ℕ → Bool
is_json_space c = nat_beq c 0x20 || nat_beq c 0x09 || nat_beq c 0x0a || nat_beq c 0x0d

abbrev is_digit : ℕ → Bool
is_digit c = leb b'0' c && leb c b'9'

abbrev is_hex : ℕ → Bool
is_hex c = is_digit c || leb b'a' c && leb c b'f' || leb b'A' c && leb c b'F'

abbrev at : Expect → List Frame → Option Scanner
at expect stack = some (record { expect = expect; stack = stack })

abbrev push : Expect → Frame → List Frame → Option Scanner
push expect frame stack =
    if ltb max_nesting_depth (length stack + 1) then none else at expect (frame ∷ stack)

-- The first byte of a value.
begin_value : List Frame → ℕ → Option Scanner
begin_value stack c =
    if nat_beq c b'{'
    then push first_key key stack
    else if nat_beq c b'['
    then push first_item item stack
    else if nat_beq c b'"'
    then at in_string stack
    else if nat_beq c b'-'
    then at minus stack
    else if nat_beq c b'0'
    then at leading_zero stack
    else if is_digit c
    then at digits stack
    else if nat_beq c b't'
    then at (word (bytes "rue")) stack
    else if nat_beq c b'f'
    then at (word (bytes "alse")) stack
    else if nat_beq c b'n'
    then at (word (bytes "ull")) stack
    else none

-- The byte behind a value.
end_value : List Frame → ℕ → Option Scanner
end_value stack c = if is_json_space c then at after stack else closes stack
  where
    closes : List Frame → Option Scanner
    closes [] = none
    closes (key ∷ below) = if nat_beq c b':' then at a_value (member ∷ below) else none
    closes (member ∷ below) =
        if nat_beq c b','
        then at a_key (key ∷ below)
        else if nat_beq c b'}'
        then at after below
        else none
    closes (item ∷ below) =
        if nat_beq c b','
        then at a_value (item ∷ below)
        else if nat_beq c b']'
        then at after below
        else none

abbrev below : List Frame → List Frame
below [] = []
below (_ ∷ rest) = rest

abbrev is_escape : ℕ → Bool
is_escape c =
    nat_beq c b'"'
    || nat_beq c b'\\'
    || nat_beq c b'/'
    || nat_beq c b'b'
    || nat_beq c b'f'
    || nat_beq c b'n'
    || nat_beq c b'r'
    || nat_beq c b't'

step : Expect → List Frame → ℕ → Option Scanner
unfolding begin_value end_value
step a_value stack c = if is_json_space c then at a_value stack else begin_value stack c
step first_item stack c =
    if is_json_space c
    then at first_item stack
    else if nat_beq c b']'
    then at after (below stack)
    else begin_value stack c
step first_key stack c =
    if is_json_space c
    then at first_key stack
    else if nat_beq c b'}'
    then at after (below stack)
    else if nat_beq c b'"'
    then at in_string stack
    else none
step a_key stack c =
    if is_json_space c then at a_key stack else if nat_beq c b'"' then at in_string stack else none
step after stack c = end_value stack c
step in_string stack c =
    if nat_beq c b'"'
    then at after stack
    else if nat_beq c b'\\'
    then at escape stack
    else if ltb c 0x20
    then none
    else at in_string stack
step escape stack c =
    if is_escape c then at in_string stack else if nat_beq c b'u' then at (hex 3) stack else none
step (hex n) stack c =
    if is_hex c then elim n [ zero ↦ at in_string stack | suc k ↦ at (hex k) stack ] else none
step minus stack c =
    if nat_beq c b'0' then at leading_zero stack else if is_digit c then at digits stack else none
step leading_zero stack c =
    if nat_beq c b'.'
    then at point stack
    else if nat_beq c b'e' || nat_beq c b'E'
    then at exponent stack
    else end_value stack c
step digits stack c =
    if is_digit c
    then at digits stack
    else if nat_beq c b'.'
    then at point stack
    else if nat_beq c b'e' || nat_beq c b'E'
    then at exponent stack
    else end_value stack c
step point stack c = if is_digit c then at fraction stack else none
step fraction stack c =
    if is_digit c
    then at fraction stack
    else if nat_beq c b'e' || nat_beq c b'E'
    then at exponent stack
    else end_value stack c
step exponent stack c =
    if nat_beq c b'+' || nat_beq c b'-'
    then at exponent_sign stack
    else if is_digit c
    then at exponent_digits stack
    else none
step exponent_sign stack c = if is_digit c then at exponent_digits stack else none
step exponent_digits stack c = if is_digit c then at exponent_digits stack else end_value stack c
step (word []) stack c = end_value stack c
step (word (b ∷ [])) stack c = if nat_beq c b then at after stack else none
step (word (b ∷ rest)) stack c = if nat_beq c b then at (word rest) stack else none

-- A value may stand complete at the end of the bytes.
is_complete : Expect → Bool
is_complete after = true
is_complete leading_zero = true
is_complete digits = true
is_complete fraction = true
is_complete exponent_digits = true
is_complete _ = false

scan : Expect → List Frame → Text → Bool
unfolding step is_complete
scan expect stack [] = is_complete expect && is_empty stack
scan expect stack (c ∷ s) = elim (step expect stack c) [
  | none ↦ false
  | some scanner ↦ scan scanner.expect scanner.stack s
]

unfoldable pub json_valid : Text → Bool
unfolding scan
json_valid s = scan a_value [] s
