-- ===== src/Stdlib/Strings.antt =====
-- strings: TrimSpace over UTF-8 bytes, Trim and TrimRight of one byte, ToLower on ASCII text, and
-- strconv.Itoa.
use mathlib.Core.List.{reverse, reverse-reverse}
use diarion_core.Prelude.{
  ℕ, zero, suc, ◌+◌, ◌-◌, ◌*◌, ◌/◌, ◌%◌, ◌≤◌, ◌≡◌, refl, ◌&&◌, ◌||◌, [], ◌∷◌, ◌++◌, arith, ltb, leb,
  ◌==◌, if◌then◌else◌, length, drop, Bytes, map,
}

-- How many bytes a leading white space takes: U+0085, U+00A0, U+1680, U+2000 to U+200A, U+2028,
-- U+2029, U+202F, U+205F and U+3000 beside the ASCII ones.
unfoldable pub space_prefix : Bytes → ℕ
space_prefix [] = 0
space_prefix (a ∷ []) = if (leb 9 a && leb a 13) || a == 32 then 1 else 0
space_prefix (a ∷ b ∷ []) =
    if (leb 9 a && leb a 13) || a == 32
    then 1
    else if a == 0xc2 && (b == 0x85 || b == 0xa0)
    then 2
    else 0
space_prefix (a ∷ b ∷ c ∷ s) =
    if (leb 9 a && leb a 13) || a == 32
    then 1
    else if a == 0xc2 && (b == 0x85 || b == 0xa0)
    then 2
    else if (a == 0xe1 && b == 0x9a && c == 0x80) || (a == 0xe3 && b == 0x80 && c == 0x80)
    then 3
    else if a == 0xe2
        && b == 0x80
        && (leb 0x80 c && leb c 0x8a || leb 0xa8 c && leb c 0xa9 || c == 0xaf)
    then 3
    else if a == 0xe2 && b == 0x81 && c == 0x9f
    then 3
    else 0

-- The same at the end of a text, which is given in reverse.
unfoldable pub space_suffix : Bytes → ℕ
space_suffix [] = 0
space_suffix (c ∷ []) = space_prefix (c ∷ [])
space_suffix (c ∷ b ∷ []) =
    if space_prefix (c ∷ []) == 1 then 1 else if space_prefix (b ∷ c ∷ []) == 2 then 2 else 0
space_suffix (c ∷ b ∷ a ∷ s) =
    if space_prefix (c ∷ []) == 1
    then 1
    else if space_prefix (b ∷ c ∷ []) == 2
    then 2
    else if space_prefix (a ∷ b ∷ c ∷ []) == 3
    then 3
    else 0

-- Takes spaces off as long as `width` finds one; the length is enough fuel.
unfoldable pub trim_by : (Bytes → ℕ) → ℕ → Bytes → Bytes
trim_by width zero s = s
trim_by width (suc f) s =
    let rest = trim_by width f (drop (width s) s) in if width s == 0 then s else rest

unfoldable pub trim_space : Bytes → Bytes
unfolding trim_by space_prefix space_suffix
trim_space s =
    let left = trim_by space_prefix (length s) s in
    reverse (trim_by space_suffix (length s) (reverse left))

trim_by_clean : (width : Bytes → ℕ) (f : ℕ) (s : Bytes) → width s ≡ 0 → trim_by width f s ≡ s
unfolding trim_by
trim_by_clean width zero s h = refl
trim_by_clean width (suc f) s h = ground arith

-- A text with no white space at either end stays as it is.
pub trim_space_clean :
    (s : Bytes) → space_prefix s ≡ 0 → space_suffix (reverse s) ≡ 0 → trim_space s ≡ s
unfolding trim_space
trim_space_clean s h k = rw (
  trim_by_clean space_prefix (length s) s h,
  trim_by_clean space_suffix (length s) (reverse s) k,
  reverse-reverse s,
)

-- ToLower on ASCII bytes.
unfoldable pub to_lower_byte : ℕ → ℕ
to_lower_byte c = if leb b'A' c && leb c b'Z' then c + 32 else c

unfoldable pub to_lower : Bytes → Bytes
unfolding to_lower_byte
to_lower s = map to_lower_byte s

abbrev pub unless_last_hyphen : ℕ → Bytes → Bytes
unless_last_hyphen c [] = if c == b'-' then [] else c ∷ []
unless_last_hyphen c (d ∷ t) = c ∷ d ∷ t

-- `strings.TrimRight(s, "-")`.
unfoldable pub trim_right_hyphen : Bytes → Bytes
trim_right_hyphen [] = []
trim_right_hyphen (c ∷ s) = unless_last_hyphen c (trim_right_hyphen s)

unfoldable pub trim_left_hyphen : Bytes → Bytes
trim_left_hyphen [] = []
trim_left_hyphen (c ∷ s) = if c == b'-' then trim_left_hyphen s else c ∷ s

-- The decimal digits of `n`, the highest first; `n` itself is enough fuel.
unfoldable pub itoa_from : ℕ → ℕ → Bytes
itoa_from zero n = (b'0' + n % 10) ∷ []
itoa_from (suc f) n =
    let front = itoa_from f (n / 10) in
    if ltb n 10 then (b'0' + n) ∷ [] else front ++ (b'0' + n % 10) ∷ []

unfoldable pub itoa : ℕ → Bytes
unfolding itoa_from
itoa n = itoa_from n n

-- The number that a row of digits stands for.
unfoldable pub value_from : ℕ → Bytes → ℕ
value_from acc [] = acc
value_from acc (c ∷ s) = value_from (acc * 10 + (c - b'0')) s

value_from-append :
    (acc : ℕ) (s : Bytes) (c : ℕ)
    → value_from acc (s ++ c ∷ []) ≡ value_from acc s * 10 + (c - b'0')
unfolding value_from
value_from-append acc [] c = refl
value_from-append acc (d ∷ s) c = value_from-append (acc * 10 + (d - b'0')) s c

value_from-itoa_from : (f n : ℕ) → n ≤ f → value_from 0 (itoa_from f n) ≡ n
unfolding itoa_from value_from
value_from-itoa_from zero n h = ground arith
value_from-itoa_from (suc f) n h = ground (
  arith,
  value_from-append 0 (itoa_from f (n / 10)) (b'0' + n % 10),
  value_from-itoa_from f (n / 10),
)

pub value_from-itoa : (n : ℕ) → value_from 0 (itoa n) ≡ n
unfolding itoa
value_from-itoa n = value_from-itoa_from n n (omega arith)
