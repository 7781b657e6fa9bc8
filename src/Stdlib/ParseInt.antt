-- ===== src/Stdlib/ParseInt.antt =====
-- strconv.ParseInt in base 10.
use diarion_core.Prelude.{
  ℕ, zero, suc, ◌-◌, ◌^◌, Bool, false, ◌&&◌, Option, none, some, [], ◌∷◌, ltb, leb, ◌==◌,
  if◌then◌else◌, Bytes,
}
use diarion_core.Prelude.Int.{ℤ, pos, negsuc}
use diarion_core.Stdlib.Strings.{value_from}

abbrev is_digit : ℕ → Bool
is_digit c = leb b'0' c && leb c b'9'

-- A row of digits that is not empty.
unfoldable pub is_number : Bytes → Bool
is_number [] = false
is_number (c ∷ []) = is_digit c
is_number (c ∷ d ∷ s) = is_digit c && is_number (d ∷ s)

abbrev pub negate : ℕ → ℤ
negate zero = pos 0
negate (suc n) = negsuc n

abbrev pub plain : ℕ → Bytes → Option ℤ
plain bits s =
    if is_number s && ltb (value_from 0 s) (2 ^ (bits - 1))
    then some (pos (value_from 0 s))
    else none

abbrev pub negated : ℕ → Bytes → Option ℤ
negated bits s =
    if is_number s && leb (value_from 0 s) (2 ^ (bits - 1))
    then some (negate (value_from 0 s))
    else none

-- `ParseInt(s, 10, bits)`, `none` for an error.
unfoldable pub parse_int : ℕ → Bytes → Option ℤ
unfolding is_number value_from
parse_int bits [] = none
parse_int bits (c ∷ s) =
    if c == b'-' then negated bits s else if c == b'+' then plain bits s else plain bits (c ∷ s)
