-- ===== src/Slug/Suffix.antt =====
-- The candidates of one base are different slugs.
use diarion_core.Prelude.{
  ℕ, ◌≤◌, ◌≡◌, ◌≢◌, sym, ap, ◌∙◌, [], ◌∷◌, arith, leb, if◌then◌else◌, length, drop, drop-append,
  Bytes, Bool-cases, inl, inr, append-nil,
}
use diarion_core.Stdlib.Strings.{itoa, value_from, value_from-itoa}
use diarion_core.Slug.{with_suffix}

-- The number behind the hyphen, and 0 for the base itself.
abbrev number : Bytes → Bytes → ℕ
number base s = value_from 0 (drop (length base) s)

abbrev shown : ℕ → ℕ
shown n = if leb n 1 then 0 else n

number-with_suffix : (base : Bytes) (n : ℕ) → number base (with_suffix base n) ≡ shown n
unfolding with_suffix value_from
number-with_suffix base n = elim (Bool-cases (leb n 1)) [
  | inl e ↦
      rw e
        (ap (value_from 0) (ap (drop (length base)) (sym (append-nil base)) ∙ drop-append base []))
  | inr e ↦ rw (e, drop-append base (b'-' ∷ itoa n)) (value_from-itoa n)
]

with_suffix-injective :
    (base : Bytes) (n m : ℕ) → 1 ≤ n → 1 ≤ m → with_suffix base n ≡ with_suffix base m → n ≡ m
with_suffix-injective base n m hn hm h =
    let e : shown n ≡ shown m =
      sym (number-with_suffix base n) ∙ (ap (number base) h ∙ number-with_suffix base m) in
    ground arith

-- Two attempts of the slug loop, which counts from 1, never try one slug twice.
pub with_suffix-distinct :
    (base : Bytes) (n m : ℕ) → 1 ≤ n → 1 ≤ m → n ≢ m → with_suffix base n ≢ with_suffix base m
with_suffix-distinct base n m hn hm d h = d (with_suffix-injective base n m hn hm h)
