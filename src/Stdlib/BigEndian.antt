-- ===== src/Stdlib/BigEndian.antt =====
-- encoding/binary: PutUint32, PutUint64 and their inverses in big-endian order, and the
-- conversions between int64 and uint64.
use diarion_core.Prelude.{
  ℕ, ◌+◌, ◌-◌, ◌*◌, ◌/◌, ◌%◌, ◌^◌, ◌<◌, ◌≡◌, refl, [], ◌∷◌, ◌++◌, arith, ltb, if◌then◌else◌, length,
  Bytes, IsBytes,
}
use diarion_core.Prelude.Int.{ℤ, pos, negsuc, IsInt64}

-- The `n` low bytes of `x`, the highest first.
unfoldable pub put_uint32 : ℕ → Bytes
put_uint32 x = x / 2 ^ 24 % 256 ∷ x / 2 ^ 16 % 256 ∷ x / 2 ^ 8 % 256 ∷ x % 256 ∷ []

unfoldable pub put_uint64 : ℕ → Bytes
unfolding put_uint32
put_uint64 x = put_uint32 (x / 2 ^ 32) ++ put_uint32 x

-- Reads four bytes; the callers have checked the length.
unfoldable pub uint32 : Bytes → ℕ
uint32 (a ∷ b ∷ c ∷ d ∷ rest) = a * 2 ^ 24 + b * 2 ^ 16 + c * 2 ^ 8 + d
uint32 _ = 0

unfoldable pub uint64 : Bytes → ℕ
uint64 (a ∷ b ∷ c ∷ d ∷ e ∷ f ∷ g ∷ h ∷ rest) =
    a * 2 ^ 56 + b * 2 ^ 48 + c * 2 ^ 40 + d * 2 ^ 32 + e * 2 ^ 24 + f * 2 ^ 16 + g * 2 ^ 8 + h
uint64 _ = 0

-- `uint64(x)` of an int64, and back: two's complement.
unfoldable pub to_uint64 : ℤ → ℕ
to_uint64 (pos n) = n
to_uint64 (negsuc n) = 2 ^ 64 - 1 - n

unfoldable pub to_int64 : ℕ → ℤ
to_int64 u = if ltb u (2 ^ 63) then pos u else negsuc (2 ^ 64 - 1 - u)

pub uint32-put_uint32 : (x : ℕ) → x < 2 ^ 32 → uint32 (put_uint32 x) ≡ x
unfolding uint32 put_uint32
uint32-put_uint32 x h = omega arith

pub uint64-put_uint64 : (x : ℕ) → x < 2 ^ 64 → uint64 (put_uint64 x) ≡ x
unfolding uint64 put_uint64
uint64-put_uint64 x h = omega arith

pub length-put_uint32 : (x : ℕ) → length (put_uint32 x) ≡ 4
unfolding put_uint32
length-put_uint32 x = refl

pub length-put_uint64 : (x : ℕ) → length (put_uint64 x) ≡ 8
unfolding put_uint64
length-put_uint64 x = refl

pub put_uint32-IsBytes : (x : ℕ) → IsBytes (put_uint32 x)
unfolding put_uint32
put_uint32-IsBytes x = omega arith

pub put_uint64-IsBytes : (x : ℕ) → IsBytes (put_uint64 x)
unfolding put_uint64
put_uint64-IsBytes x = omega arith

pub to_int64-to_uint64 : (x : ℤ) → IsInt64 x → to_int64 (to_uint64 x) ≡ x
unfolding to_int64 to_uint64
to_int64-to_uint64 (pos n) h = ground arith
to_int64-to_uint64 (negsuc n) h = ground arith

pub to_uint64-lt : (x : ℤ) → IsInt64 x → to_uint64 x < 2 ^ 64
unfolding to_uint64
to_uint64-lt (pos n) h = omega arith
to_uint64-lt (negsuc n) h = omega arith
