-- ===== src/Stdlib/Hex.antt =====
-- encoding/hex: EncodeToString writes lowercase digits, DecodeString reads both cases.
use diarion_core.Prelude.{
  ℕ, ◌+◌, ◌-◌, ◌*◌, ◌/◌, ◌%◌, ◌<◌, ◌≡◌, refl, ◌&&◌, Option, none, some, [], ◌∷◌, arith, ltb, leb,
  if◌then◌else◌, length, Bytes, IsBytes, Option-cases, inl, inr,
}

unfoldable pub hex_digit : ℕ → ℕ
hex_digit d = if ltb d 10 then b'0' + d else b'a' + d - 10

unfoldable pub from_hex_digit : ℕ → Option ℕ
from_hex_digit c =
    if leb b'0' c && leb c b'9'
    then some (c - b'0')
    else if leb b'a' c && leb c b'f'
    then some (c - b'a' + 10)
    else if leb b'A' c && leb c b'F'
    then some (c - b'A' + 10)
    else none

unfoldable pub encode : Bytes → Bytes
unfolding hex_digit
encode [] = []
encode (b ∷ s) = hex_digit (b / 16) ∷ hex_digit (b % 16) ∷ encode s

abbrev join_digits : Option ℕ → Option ℕ → Option Bytes → Option Bytes
join_digits (some hi) (some lo) (some rest) = some ((hi * 16 + lo) ∷ rest)
join_digits (some hi) (some lo) none = none
join_digits (some hi) none rest = none
join_digits none lo rest = none

-- An odd length or a character that is no digit is an error.
unfoldable pub decode : Bytes → Option Bytes
unfolding from_hex_digit
decode [] = some []
decode (c ∷ []) = none
decode (c ∷ d ∷ s) = join_digits (from_hex_digit c) (from_hex_digit d) (decode s)

from_hex_digit-hex_digit : (d : ℕ) → d < 16 → from_hex_digit (hex_digit d) ≡ some d
unfolding from_hex_digit hex_digit
from_hex_digit-hex_digit d h = ground arith

pub decode-encode : (s : Bytes) → IsBytes s → decode (encode s) ≡ some s
unfolding decode encode
decode-encode [] h = refl
decode-encode (b ∷ s) (hb, h) =
    rw
      (
        from_hex_digit-hex_digit (b / 16) (omega arith),
        from_hex_digit-hex_digit (b % 16) (omega arith),
        decode-encode s h,
      )
      (ground arith)

pub length-encode : (s : Bytes) → length (encode s) ≡ 2 * length s
unfolding encode
length-encode [] = refl
length-encode (b ∷ s) = omega (arith, length-encode s)

from_hex_digit-lt : (c d : ℕ) → from_hex_digit c ≡ some d → d < 16
unfolding from_hex_digit
from_hex_digit-lt c d h = ground arith

pub length-decode : (s t : Bytes) → decode s ≡ some t → length s ≡ 2 * length t
unfolding decode
length-decode [] t h = ground arith
length-decode (c ∷ []) t h = cc
length-decode (c ∷ d ∷ s) t h = elim (Option-cases (decode s)) [
  | inl e ↦ ground arith
  | inr (r, e) ↦ ground (arith, length-decode s r)
]

pub decode-IsBytes : (s t : Bytes) → decode s ≡ some t → IsBytes t
unfolding decode
decode-IsBytes [] t h = ground arith
decode-IsBytes (c ∷ []) t h = cc
decode-IsBytes (c ∷ d ∷ s) t h = elim (Option-cases (decode s)) [
  | inl e ↦ ground arith
  | inr (r, e) ↦ ground (arith, decode-IsBytes s r, from_hex_digit-lt c, from_hex_digit-lt d)
]
