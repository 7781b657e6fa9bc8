-- ===== src/Stdlib/Base64.antt =====
-- encoding/base64: RawURLEncoding, the URL-safe alphabet without padding. The decoder skips line
-- breaks, and does not insist that the unused bits of the last character are zero.
use diarion_core.Prelude.{
  ℕ, ◌+◌, ◌-◌, ◌*◌, ◌/◌, ◌%◌, ◌<◌, ◌≡◌, refl, false, ◌&&◌, ◌||◌, Option, none, some, List, [], ◌∷◌,
  arith, ltb, leb, ◌==◌, if◌then◌else◌, All, Bytes, IsBytes,
}

-- The character of a six-bit value.
unfoldable pub sextet_char : ℕ → ℕ
sextet_char v =
    if ltb v 26
    then b'A' + v
    else if ltb v 52
    then b'a' + (v - 26)
    else if ltb v 62
    then b'0' + (v - 52)
    else if v == 62
    then b'-'
    else b'_'

unfoldable pub char_sextet : ℕ → Option ℕ
char_sextet c =
    if leb b'A' c && leb c b'Z'
    then some (c - b'A')
    else if leb b'a' c && leb c b'z'
    then some (c - b'a' + 26)
    else if leb b'0' c && leb c b'9'
    then some (c - b'0' + 52)
    else if c == b'-'
    then some 62
    else if c == b'_'
    then some 63
    else none

-- Three bytes make four characters; one or two at the end make two or three.
unfoldable pub sextets : Bytes → List ℕ
sextets [] = []
sextets (a ∷ []) = a / 4 ∷ a % 4 * 16 ∷ []
sextets (a ∷ b ∷ []) = a / 4 ∷ (a % 4 * 16 + b / 16) ∷ b % 16 * 4 ∷ []
sextets (a ∷ b ∷ c ∷ s) = a / 4 ∷ (a % 4 * 16 + b / 16) ∷ (b % 16 * 4 + c / 64) ∷ c % 64 ∷ sextets s

abbrev pub map_chars : List ℕ → Bytes
map_chars [] = []
map_chars (v ∷ vs) = sextet_char v ∷ map_chars vs

unfoldable pub encode : Bytes → Bytes
unfolding sextets sextet_char
encode s = map_chars (sextets s)

abbrev cons_sextet : Option ℕ → Option (List ℕ) → Option (List ℕ)
cons_sextet (some v) (some vs) = some (v ∷ vs)
cons_sextet (some v) none = none
cons_sextet none r = none

-- The values of the characters, line breaks left out; `none` at a character of another alphabet.
unfoldable pub read_sextets : Bytes → Option (List ℕ)
unfolding char_sextet
read_sextets [] = some []
read_sextets (c ∷ s) =
    let rest = read_sextets s in
    if c == 13 || c == 10 then rest else cons_sextet (char_sextet c) rest

abbrev prepend : ℕ → ℕ → ℕ → Option Bytes → Option Bytes
prepend a b c (some s) = some (a ∷ b ∷ c ∷ s)
prepend a b c none = none

unfoldable pub join_sextets : List ℕ → Option Bytes
join_sextets [] = some []
join_sextets (p ∷ []) = none
join_sextets (p ∷ q ∷ []) = some ((p * 4 + q / 16) ∷ [])
join_sextets (p ∷ q ∷ r ∷ []) = some ((p * 4 + q / 16) ∷ (q % 16 * 16 + r / 4) ∷ [])
join_sextets (p ∷ q ∷ r ∷ t ∷ s) =
    prepend (p * 4 + q / 16) (q % 16 * 16 + r / 4) (r % 4 * 64 + t) (join_sextets s)

abbrev join_read : Option (List ℕ) → Option Bytes
join_read none = none
join_read (some vs) = join_sextets vs

unfoldable pub decode : Bytes → Option Bytes
unfolding read_sextets join_sextets
decode s = join_read (read_sextets s)

char_sextet-sextet_char : (v : ℕ) → v < 64 → char_sextet (sextet_char v) ≡ some v
unfolding char_sextet sextet_char
char_sextet-sextet_char v h = ground arith

sextet_char_no_break : (v : ℕ) → v < 64 → ((sextet_char v == 13) || (sextet_char v == 10)) ≡ false
unfolding sextet_char
sextet_char_no_break v h = ground arith

abbrev IsSextets : List ℕ → Type 0
IsSextets = All (λ v. v < 64)

read_sextets-map_chars : (vs : List ℕ) → IsSextets vs → read_sextets (map_chars vs) ≡ some vs
unfolding read_sextets
read_sextets-map_chars [] h = refl
read_sextets-map_chars (v ∷ vs) (hv, h) =
    rw (sextet_char_no_break v hv, char_sextet-sextet_char v hv, read_sextets-map_chars vs h)

sextets-IsSextets : (s : Bytes) → IsBytes s → IsSextets (sextets s)
unfolding sextets
sextets-IsSextets [] h = tt
sextets-IsSextets (a ∷ []) h = omega arith
sextets-IsSextets (a ∷ b ∷ []) h = omega arith
sextets-IsSextets (a ∷ b ∷ c ∷ s) (ha, (hb, (hc, h))) =
    (omega arith, (omega arith, (omega arith, (omega arith, sextets-IsSextets s h))))

join_sextets-sextets : (s : Bytes) → IsBytes s → join_sextets (sextets s) ≡ some s
unfolding join_sextets sextets
join_sextets-sextets [] h = refl
join_sextets-sextets (a ∷ []) h = ground arith
join_sextets-sextets (a ∷ b ∷ []) h = ground arith
join_sextets-sextets (a ∷ b ∷ c ∷ s) (ha, (hb, (hc, h))) =
    rw (join_sextets-sextets s h) (ground arith)

pub decode-encode : (s : Bytes) → IsBytes s → decode (encode s) ≡ some s
unfolding decode encode
decode-encode s h =
    rw (read_sextets-map_chars (sextets s) (sextets-IsSextets s h)) (join_sextets-sextets s h)
