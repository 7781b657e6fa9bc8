-- ===== src/Pat/Shape.antt =====
-- Every generated token is read back, and only well-shaped tokens are.
use mathlib.Core.List.{reverse, reverse_aux}
use diarion_core.Prelude.{
  ◌/◌, ◌%◌, ℕ, ◌*◌, ◌<◌, ◌≡◌, refl, false, some, [], ◌∷◌, ◌++◌, arith, ◌==◌, length, All, IsBytes,
  Bytes, strip_prefix, strip_prefix-append, strip_prefix-eq-some, inl, inr, Option-cases,
  All-append, ◌∙◌,
}
use diarion_core.Prelude.Partial.{bind-eq-some}
use diarion_core.Stdlib.Hex
use diarion_core.Stdlib.Hex.{hex_digit}
use diarion_core.Stdlib.Strings.{trim_space, trim_space_clean, space_prefix, space_suffix}
use diarion_core.Pat.{
  prefix, token_len, bearer_prefix, Generated, generate, hash, check_body, parse_from_header,
}

-- A token: the prefix and 64 hexadecimal digits.
pub record IsToken (tok : Bytes) : Type 0 where
  pub body : Bytes
  pub raw : Bytes
  pub shape : tok ≡ prefix ++ body
  pub digits : Hex.decode body ≡ some raw
  pub size : length raw ≡ token_len

-- No byte of a hexadecimal text is white space or above 127.
abbrev IsPlain : ℕ → Type 0
IsPlain c = (32 < c) × (c < 128)

hex_digit-IsPlain : (d : ℕ) → d < 16 → IsPlain (hex_digit d)
unfolding hex_digit
hex_digit-IsPlain d h = ground arith

encode-IsPlain : (s : Bytes) → IsBytes s → All IsPlain (Hex.encode s)
unfolding Hex.encode
encode-IsPlain [] h = tt
encode-IsPlain (b ∷ s) (hb, h) = (
  hex_digit-IsPlain (b / 16) (omega arith),
  (hex_digit-IsPlain (b % 16) (omega arith), encode-IsPlain s h),
)

one_plain : (c : ℕ) → IsPlain c → space_prefix (c ∷ []) ≡ 0
unfolding space_prefix
one_plain c h = ground arith

two_plain : (b c : ℕ) → IsPlain c → (space_prefix (b ∷ c ∷ []) == 2) ≡ false
unfolding space_prefix
two_plain b c h = ground arith

three_plain : (a b c : ℕ) → IsPlain c → (space_prefix (a ∷ b ∷ c ∷ []) == 3) ≡ false
unfolding space_prefix
three_plain a b c h = ground arith

-- The last byte of a text decides.
space_suffix_plain : (c : ℕ) (s : Bytes) → IsPlain c → space_suffix (c ∷ s) ≡ 0
unfolding space_suffix
space_suffix_plain c [] h = one_plain c h
space_suffix_plain c (b ∷ []) h = rw (one_plain c h, two_plain b c h)
space_suffix_plain c (b ∷ a ∷ s) h = rw (one_plain c h, two_plain b c h, three_plain a b c h)

reverse_aux-IsPlain : (s t : Bytes) → All IsPlain s → All IsPlain t → All IsPlain (reverse_aux s t)
reverse_aux-IsPlain [] t h k = k
reverse_aux-IsPlain (c ∷ s) t (hc, h) k = reverse_aux-IsPlain s (c ∷ t) h (hc, k)

space_suffix-IsPlain : (s : Bytes) → All IsPlain s → space_suffix s ≡ 0
unfolding space_suffix
space_suffix-IsPlain [] h = refl
space_suffix-IsPlain (c ∷ s) (hc, h) = space_suffix_plain c s hc

space_prefix-IsPlain : (s : Bytes) → All IsPlain s → space_prefix s ≡ 0
unfolding space_prefix
space_prefix-IsPlain [] h = refl
space_prefix-IsPlain (a ∷ []) h = ground arith
space_prefix-IsPlain (a ∷ b ∷ []) h = ground arith
space_prefix-IsPlain (a ∷ b ∷ c ∷ s) h = ground arith

trim_space-IsPlain : (s : Bytes) → All IsPlain s → trim_space s ≡ s
trim_space-IsPlain s h =
    trim_space_clean s (space_prefix-IsPlain s h)
      (space_suffix-IsPlain (reverse s) (reverse_aux-IsPlain s [] h tt))

token-IsPlain : (buf : Bytes) → IsBytes buf → All IsPlain (prefix ++ Hex.encode buf)
token-IsPlain buf h = All-append IsPlain prefix _ (omega arith) (encode-IsPlain buf h)

check_body_generated :
    (tok buf : Bytes)
    → IsBytes buf
    → length buf ≡ token_len
    → check_body tok (Hex.encode buf) ≡ some tok
unfolding check_body
check_body_generated tok buf h k = rw (Hex.length-encode buf, k, Hex.decode-encode buf h)

-- A token generated from 32 random bytes is read back unchanged from the header that carries it.
pub parse-generate :
    (sha256 : Bytes → Bytes) (buf : Bytes)
    → IsBytes buf
    → length buf ≡ token_len
    → (g : Generated) × (generate sha256 (some buf) ≡ some g)
      × (parse_from_header (bearer_prefix ++ g.plaintext) ≡ some g.plaintext)
unfolding generate parse_from_header
parse-generate sha256 buf h k =
    let tok : Bytes = prefix ++ Hex.encode buf in
    (
      record { plaintext = tok; token_hash = hash sha256 tok },
      refl,
      rw (
        strip_prefix-append bearer_prefix tok,
        trim_space-IsPlain tok (token-IsPlain buf h),
        strip_prefix-append prefix (Hex.encode buf),
        check_body_generated tok buf h k,
      ),
    )

check_body-eq-some :
    (tok body r : Bytes)
    → check_body tok body ≡ some r
    → (raw : Bytes) × (Hex.decode body ≡ some raw) × (length body ≡ 2 * token_len) × (r ≡ tok)
unfolding check_body
check_body-eq-some tok body r h = elim (Option-cases (Hex.decode body)) [
  | inl e ↦ ground arith
  | inr (raw, e) ↦ (raw, e, ground arith, ground arith)
]

-- Whatever header is accepted, it is "Bearer " and a text whose trimmed form is returned, and that
-- form is a token: the prefix and 64 hexadecimal digits.
pub parse-IsToken :
    (header tok : Bytes)
    → parse_from_header header ≡ some tok
    → IsToken tok × ((rest : Bytes) × (header ≡ bearer_prefix ++ rest) × (tok ≡ trim_space rest))
unfolding parse_from_header
parse-IsToken header tok h =
    let (rest, e1, h1) = bind-eq-some (strip_prefix bearer_prefix header) _ h in
    let (body, e2, h2) = bind-eq-some (strip_prefix prefix (trim_space rest)) _ h1 in
    let (raw, digits, size, same) = check_body-eq-some (trim_space rest) body tok h2 in
    (
      record {
        body = body;
        raw = raw;
        shape = same ∙ strip_prefix-eq-some prefix (trim_space rest) body e2;
        digits = digits;
        size = omega (arith, Hex.length-decode body raw digits);
      },
      (rest, strip_prefix-eq-some bearer_prefix header rest e1, same),
    )
