-- ===== src/Handle/Rules.antt =====
-- The documented rules, stated without the pattern, are exactly what Validate accepts.
use diarion_core.Prelude.{
  ℕ, ◌≤◌, ◌≡◌, ◌≢◌, ◌↔◌, refl, ap, true, false, none, some, [], ◌∷◌, arith, length, head?, last?,
  All, Bytes, ◌⊎◌,
}
use native.Mathlib.Decide.{ℕ_discrete}
use diarion_core.Stdlib.Strings.{to_lower, to_lower_byte}
use diarion_core.Handle.{
  is_alnum, is_alnum_hyphen, matches_tail, matches_pattern, is_reserved, validate,
}

-- ASCII lowercase letter, digit or hyphen.
abbrev pub IsHandleChar : ℕ → Type 0
IsHandleChar c = ((b'a' ≤ c) × (c ≤ b'z')) ⊎ ((b'0' ≤ c) × (c ≤ b'9')) ⊎ (c ≡ b'-')

-- The rules of the package comment.
pub record IsHandle (h : Bytes) : Type 0 where
  pub at_least : 3 ≤ length h
  pub at_most : length h ≤ 32
  pub chars : All IsHandleChar h
  pub no_leading : head? h ≢ some b'-'
  pub no_trailing : last? h ≢ some b'-'
  pub free : is_reserved h ≡ false

matches_tail-chars : (s : Bytes) → matches_tail s ≡ true → All IsHandleChar s
unfolding matches_tail is_alnum_hyphen is_alnum
matches_tail-chars [] h = tt
matches_tail-chars (c ∷ []) h = (ground arith, tt)
matches_tail-chars (c ∷ d ∷ s) h = (ground arith, matches_tail-chars (d ∷ s) (ground arith))

matches_tail-last : (s : Bytes) → matches_tail s ≡ true → last? s ≢ some b'-'
unfolding matches_tail is_alnum
matches_tail-last [] h = ground arith
matches_tail-last (c ∷ []) h = ground arith
matches_tail-last (c ∷ d ∷ s) h = matches_tail-last (d ∷ s) (ground arith)

matches_tail_complete :
    (c : ℕ) (s : Bytes)
    → All IsHandleChar (c ∷ s)
    → last? (c ∷ s) ≢ some b'-'
    → matches_tail (c ∷ s) ≡ true
unfolding matches_tail is_alnum_hyphen is_alnum
matches_tail_complete c [] (hc, h) k = elim (ℕ_discrete c b'-') [
  | yes e ↦ absurd (k (ap some e))
  | no n ↦ ground arith
]
matches_tail_complete c (d ∷ s) (hc, h) k = rw (matches_tail_complete d s h k) (ground arith)

to_lower_byte_id : (c : ℕ) → IsHandleChar c → to_lower_byte c ≡ c
unfolding to_lower_byte
to_lower_byte_id c h = ground arith

to_lower_id : (s : Bytes) → All IsHandleChar s → to_lower s ≡ s
unfolding to_lower
to_lower_id [] h = refl
to_lower_id (c ∷ s) (hc, h) = cc (to_lower_byte_id c hc, to_lower_id s h)

matches_pattern_sound :
    (h : Bytes)
    → matches_pattern h ≡ true
    → All IsHandleChar h × (head? h ≢ some b'-') × (last? h ≢ some b'-')
unfolding matches_pattern is_alnum
matches_pattern_sound [] h = cc
matches_pattern_sound (c ∷ []) h = ground arith
matches_pattern_sound (c ∷ d ∷ s) h =
    let tail : matches_tail (d ∷ s) ≡ true = ground arith in
    ((ground arith, matches_tail-chars (d ∷ s) tail), ground arith, matches_tail-last (d ∷ s) tail)

matches_pattern_complete :
    (h : Bytes)
    → 3 ≤ length h
    → length h ≤ 32
    → All IsHandleChar h
    → head? h ≢ some b'-'
    → last? h ≢ some b'-'
    → matches_pattern h ≡ true
unfolding matches_pattern is_alnum
matches_pattern_complete [] l u h f k = absurd (omega arith)
matches_pattern_complete (c ∷ []) l u h f k = absurd (omega arith)
matches_pattern_complete (c ∷ d ∷ s) l u (hc, h) f k = elim (ℕ_discrete c b'-') [
  | yes e ↦ absurd (f (ap some e))
  | no n ↦ rw (matches_tail_complete d s h k) (ground arith)
]

-- What Validate has established when it returns nil, its own tests read off.
validate-passes :
    (h : Bytes)
    → validate h ≡ none
    → (3 ≤ length h)
      × (length h ≤ 32)
      × (matches_pattern h ≡ true)
      × (is_reserved (to_lower h) ≡ false)
unfolding validate
validate-passes h e = ground arith

validate-accepts :
    (h : Bytes)
    → 3 ≤ length h
    → length h ≤ 32
    → matches_pattern h ≡ true
    → is_reserved (to_lower h) ≡ false
    → validate h ≡ none
unfolding validate
validate-accepts h l u m r = ground arith

-- Validate returns nil exactly for the handles that follow the documented rules: 3 to 32
-- characters, only lowercase ASCII letters, digits and hyphens, no hyphen at either end, and no
-- reserved word.
pub validate_iff : (h : Bytes) → (validate h ≡ none) ↔ IsHandle h
validate_iff h = (accepts, accepted)
  where
    accepts : validate h ≡ none → IsHandle h
    accepts e =
        let (l, u, m, r) = validate-passes h e in
        let (chars, first, last) = matches_pattern_sound h m in
        record {
          at_least = l;
          at_most = u;
          chars = chars;
          no_leading = first;
          no_trailing = last;
          free = rw (to_lower_id h chars) at r;
        }

    accepted : IsHandle h → validate h ≡ none
    accepted v =
        validate-accepts h v.at_least v.at_most
          (matches_pattern_complete h v.at_least v.at_most v.chars v.no_leading v.no_trailing)
          (rw (to_lower_id h v.chars) v.free)
