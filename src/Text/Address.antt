-- ===== src/Text/Address.antt =====
-- net.ParseIP, as a test: which texts are IP address literals. A zone is never accepted.
use mydocker.Base.{
  true, ℕ, zero, suc, ◌+◌, ◌-◌, ◌*◌, Bool, false, not, ◌&&◌, ◌||◌, [], ◌∷◌, ltb, leb, nat_beq,
  if◌then◌else◌, is_empty, any,
}
use mydocker.Text.Utf8.{Text}

is_digit : ℕ → Bool
is_digit b = leb b'0' b && leb b b'9'

is_hex : ℕ → Bool
unfolding is_digit
is_hex b = is_digit b || leb b'a' b && leb b b'f' || leb b'A' b && leb b b'F'

-- The loop over a dotted quad: the number read, its digits, and the fields before it.
quad : ℕ → ℕ → ℕ → Text → Bool
unfolding is_digit
quad val digits pos [] = nat_beq pos 3 && ltb 0 digits
quad val digits pos (b ∷ s) =
    let read = val * 10 + (b - b'0') in
    let next = quad read (digits + 1) pos s in
    let field = quad 0 0 (pos + 1) s in
    if is_digit b
    then not (nat_beq digits 1 && nat_beq val 0) && leb read 255 && next
    else nat_beq b b'.' && ltb 0 digits && ltb pos 3 && field

-- How many hexadecimal digits the text begins with.
hex_length : Text → ℕ
unfolding is_hex
hex_length [] = 0
hex_length (b ∷ s) = if is_hex b then hex_length s + 1 else 0

after : ℕ → Text → Text
after zero s = s
after (suc n) [] = []
after (suc n) (_ ∷ s) = after n s

-- All the text is read, and an ellipsis stands for the groups that are left, of which there are some.
groups_end : ℕ → Bool → Text → Bool
groups_end left ellipsis s = is_empty s && (if nat_beq left 0 then not ellipsis else ellipsis)

-- What follows a group: nothing, a colon and more, or two colons.
pub data Next : Type 0 where
  stop bad : Next
  ellipsis : Text → Next
  group : Text → Next

next_group : Text → Next
next_group [] = stop
next_group (a ∷ []) = bad
next_group (a ∷ b ∷ s) =
    if nat_beq a b':' then if nat_beq b b':' then ellipsis s else group (b ∷ s) else bad

starts_dot : Text → Bool
starts_dot [] = false
starts_dot (b ∷ _) = nat_beq b b'.'

-- The loop over the groups of an IPv6 address, with the number of groups that are left.
groups : ℕ → Bool → Text → Bool
unfolding quad hex_length after groups_end next_group starts_dot
groups zero seen s = groups_end 0 seen s
groups (suc left) seen s =
    let n = hex_length s in
    let rest = after n s in
    let is_quad = starts_dot rest in
    if nat_beq n 0 || ltb 4 n
    then false
    else if is_quad
    then (seen || nat_beq left 1) && ltb 0 left && quad 0 0 0 s && groups_end (left - 1) seen []
    else elim (next_group rest) [
      | stop ↦ groups_end left seen []
      | bad ↦ false
      | ellipsis t ↦
          not seen && (if is_empty t then groups_end left true [] else groups left true t)
      | group t ↦ groups left seen t
    ]

ipv6 : Text → Bool
unfolding groups
ipv6 (a ∷ b ∷ s) =
    if nat_beq a b':' && nat_beq b b':'
    then is_empty s || groups 8 true s
    else groups 8 false (a ∷ b ∷ s)
ipv6 s = groups 8 false s

-- The first dot or colon decides between the two forms.
by_form : Text → Text → Bool
unfolding quad ipv6
by_form s [] = false
by_form s (b ∷ t) =
    let rest = by_form s t in
    if nat_beq b b'.' then quad 0 0 0 s else if nat_beq b b':' then ipv6 s else rest

unfoldable pub is_ip : Text → Bool
unfolding by_form
is_ip s = not (any (λ b. nat_beq b b'%') s) && by_form s s
