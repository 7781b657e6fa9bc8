-- ===== src/Paging/Bounds.antt =====
-- What the parsed limits and offsets can be.
use diarion_core.Prelude.{
  ℕ, zero, suc, ◌<◌, ◌≤◌, ◌^◌, inl, inr, ◌&&◌, Option, none, some, [], ◌∷◌, arith, ltb, leb, ◌==◌,
  Bytes, Bool-cases,
}
use diarion_core.Prelude.Int.{ℤ, pos, negsuc}
use diarion_core.Stdlib.ParseInt.{is_number, negate, plain, negated, parse_int}
use diarion_core.Stdlib.Strings.{value_from}
use diarion_core.Paging.{
  max_limit, or_default, capped, or_zero, parse_limit, parse_offset, parse_pagination,
}

-- In the range of an int32, as far as it is not negative.
abbrev Small : Option ℤ → Type 0
Small none = Unit {0}
Small (some (pos n)) = n < 2 ^ 31
Small (some (negsuc n)) = Unit {0}

plain-Small : (s : Bytes) → Small (plain 32 s)
plain-Small s = elim (Bool-cases (is_number s && ltb (value_from 0 s) (2 ^ 31))) [
  | inl e ↦ rw e (ground arith)
  | inr e ↦ rw e tt
]

negate-Small : (n : ℕ) → Small (some (negate n))
negate-Small zero = omega arith
negate-Small (suc n) = tt

negated-Small : (s : Bytes) → Small (negated 32 s)
negated-Small s = elim (Bool-cases (is_number s && leb (value_from 0 s) (2 ^ 31))) [
  | inl e ↦ rw e (negate-Small (value_from 0 s))
  | inr e ↦ rw e tt
]

parse_int-Small : (s : Bytes) → Small (parse_int 32 s)
unfolding parse_int
parse_int-Small [] = tt
parse_int-Small (c ∷ s) = elim (Bool-cases (c == b'-')) [
  | inl m ↦ rw m (negated-Small s)
  | inr m ↦ elim (Bool-cases (c == b'+')) [
    | inl p ↦ rw (m, p) (plain-Small s)
    | inr p ↦ rw (m, p) (plain-Small (c ∷ s))
  ]
]

or_default_pos : (o : Option ℤ) → 0 < or_default o
or_default_pos none = omega arith
or_default_pos (some (negsuc n)) = omega arith
or_default_pos (some (pos n)) = ground arith

capped_bounds : (n : ℕ) → 0 < n → (0 < capped n) × (capped n ≤ max_limit)
capped_bounds n h = ground arith

or_zero-lt : (o : Option ℤ) → Small o → or_zero o < 2 ^ 31
or_zero-lt none h = omega arith
or_zero-lt (some (negsuc n)) h = omega arith
or_zero-lt (some (pos n)) h = h

-- Whatever the query parameters are, the limit lies between 1 and 100 and the offset is an int32 that
-- is not negative.
pub parse_pagination_bounds :
    (limit offset : Bytes)
    → (0 < (parse_pagination limit offset).0)
      × ((parse_pagination limit offset).0 ≤ 100)
      × ((parse_pagination limit offset).1 < 2 ^ 31)
unfolding parse_pagination parse_limit parse_offset
parse_pagination_bounds limit offset =
    let (low, high) = capped_bounds _ (or_default_pos (parse_int 32 limit)) in
    (low, high, or_zero-lt (parse_int 32 offset) (parse_int-Small offset))

pub parse_limit_pos : (raw : Bytes) → 0 < parse_limit raw
unfolding parse_limit
parse_limit_pos raw = (capped_bounds _ (or_default_pos (parse_int 32 raw))).0
