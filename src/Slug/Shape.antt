-- ===== src/Slug/Shape.antt =====
-- The shape of a slug, and that Slugify gives nothing else.
use diarion_core.Prelude.{
  ℕ, zero, suc, ◌≤◌, ◌≡◌, ◌≢◌, ◌⊎◌, inl, inr, refl, Bool, true, false, some, List, [], ◌∷◌, ◌++◌,
  arith, leb, leb→le, ◌==◌, length, length-take, take, last?, Bytes, Bool-cases,
}
use diarion_core.Stdlib.Strings.{trim_left_hyphen, trim_right_hyphen, unless_last_hyphen}
use diarion_core.Slug.{
  Unicode, max_len, is_slug_rune, Builder, write_rune, write_runes, or_title, untitled, finish,
  slugify,
}

-- Lowercase ASCII letters and digits with single hyphens between: `after_hyphen` tells whether a
-- hyphen, or nothing at all, stands before the text.
abbrev pub Spaced : Bool → Bytes → Type 0
Spaced after_hyphen [] = Unit {0}
Spaced after_hyphen (c ∷ s) =
    ((is_slug_rune c ≡ true) × Spaced false s)
    ⊎ ((c ≡ b'-') × (after_hyphen ≡ false) × Spaced true s)

pub record IsSlug (s : Bytes) : Type 0 where
  pub not_empty : s ≢ []
  pub at_most : length s ≤ 80
  pub spaced : Spaced true s
  pub no_trailing : last? s ≢ some b'-'

-- Whether a hyphen, or nothing, stands behind the text.
ends : Bool → Bytes → Bool
ends b [] = b
ends b (c ∷ s) = ends (c == b'-') s

hyphen_no_rune : (c : ℕ) → is_slug_rune c ≡ true → (c == b'-') ≡ false
unfolding is_slug_rune
hyphen_no_rune c h = ground arith

Spaced-append_rune :
    (b : Bool) (s : Bytes) (r : ℕ)
    → Spaced b s
    → is_slug_rune r ≡ true
    → Spaced b (s ++ r ∷ []) × (ends b (s ++ r ∷ []) ≡ false)
unfolding ends
Spaced-append_rune b [] r h e = (inl (e, tt), hyphen_no_rune r e)
Spaced-append_rune b (c ∷ s) r (inl (hc, h)) e =
    let (t, f) = Spaced-append_rune false s r h e in (inl (hc, t), rw (ends, hyphen_no_rune c hc) f)
Spaced-append_rune b (c ∷ s) r (inr (hc, hb, h)) e =
    let (t, f) = Spaced-append_rune true s r h e in (inr (hc, hb, t), rw (ends, hc) f)

Spaced-append_hyphen :
    (b : Bool) (s : Bytes)
    → Spaced b s
    → ends b s ≡ false
    → Spaced b (s ++ b'-' ∷ []) × (ends b (s ++ b'-' ∷ []) ≡ true)
unfolding ends
Spaced-append_hyphen b [] h e = (inr (refl, e, tt), refl)
Spaced-append_hyphen b (c ∷ s) (inl (hc, h)) e =
    let (t, f) = Spaced-append_hyphen false s h (rw (hyphen_no_rune c hc) at e) in
    (inl (hc, t), rw (ends, hyphen_no_rune c hc) f)
Spaced-append_hyphen b (c ∷ s) (inr (hc, hb, h)) e =
    let (t, f) = Spaced-append_hyphen true s h (rw hc at e) in (inr (hc, hb, t), rw (ends, hc) f)

-- What holds of the builder from the start of the loop to its end.
record Written (b : Builder) : Type 0 where
  spaced : Spaced true b.out
  hyphen : ends true b.out ≡ b.last_hyphen

write_rune-Written : (b : Builder) (r : ℕ) → Written b → Written (write_rune b r)
unfolding write_rune
write_rune-Written b r w = elim (Bool-cases (is_slug_rune r)) [
  | inl e ↦
      let (t, f) = Spaced-append_rune true b.out r w.spaced e in
      rw e (record { spaced = t; hyphen = f })
  | inr e ↦ elim (Bool-cases b.last_hyphen) [
    | inl l ↦ rw (e, l) (record { spaced = w.spaced; hyphen = rw l at w.hyphen })
    | inr l ↦
        let (t, f) = Spaced-append_hyphen true b.out w.spaced (rw l at w.hyphen) in
        rw (e, l) (record { spaced = t; hyphen = f })
  ]
]

write_runes-Written : (rs : List ℕ) (b : Builder) → Written b → Written (write_runes b rs)
unfolding write_runes
write_runes-Written [] b w = w
write_runes-Written (r ∷ rs) b w =
    write_runes-Written rs (write_rune b r) (write_rune-Written b r w)

trim_left_hyphen-Spaced : (s : Bytes) → Spaced true s → trim_left_hyphen s ≡ s
unfolding trim_left_hyphen
trim_left_hyphen-Spaced [] h = refl
trim_left_hyphen-Spaced (c ∷ s) (inl (hc, h)) = rw (hyphen_no_rune c hc) refl
trim_left_hyphen-Spaced (c ∷ s) (inr (hc, hb, h)) = cc

Spaced-take : (b : Bool) (n : ℕ) (s : Bytes) → Spaced b s → Spaced b (take n s)
Spaced-take b zero s h = tt
Spaced-take b (suc n) [] h = tt
Spaced-take b (suc n) (c ∷ s) (inl (hc, h)) = inl (hc, Spaced-take false n s h)
Spaced-take b (suc n) (c ∷ s) (inr (hc, hb, h)) = inr (hc, hb, Spaced-take true n s h)

Spaced-unless_last :
    (b : Bool) (c : ℕ) (s : Bytes) → Spaced b (c ∷ s) → Spaced b (unless_last_hyphen c s)
Spaced-unless_last b c [] h = elim (Bool-cases (c == b'-')) [ inl e ↦ rw e tt | inr e ↦ rw e h ]
Spaced-unless_last b c (d ∷ s) h = h

Spaced-trim_right_hyphen : (b : Bool) (s : Bytes) → Spaced b s → Spaced b (trim_right_hyphen s)
unfolding trim_right_hyphen
Spaced-trim_right_hyphen b [] h = tt
Spaced-trim_right_hyphen b (c ∷ s) (inl (hc, h)) =
    Spaced-unless_last b c (trim_right_hyphen s) (inl (hc, Spaced-trim_right_hyphen false s h))
Spaced-trim_right_hyphen b (c ∷ s) (inr (hc, hb, h)) =
    Spaced-unless_last b c (trim_right_hyphen s) (inr (hc, hb, Spaced-trim_right_hyphen true s h))

length-unless_last : (c : ℕ) (s : Bytes) → length (unless_last_hyphen c s) ≤ suc (length s)
length-unless_last c [] = elim (Bool-cases (c == b'-')) [
  | inl e ↦ rw e (omega arith)
  | inr e ↦ rw e (omega arith)
]
length-unless_last c (d ∷ s) = omega arith

length-trim_right_hyphen : (s : Bytes) → length (trim_right_hyphen s) ≤ length s
unfolding trim_right_hyphen
length-trim_right_hyphen [] = omega arith
length-trim_right_hyphen (c ∷ s) =
    omega (arith, length-unless_last c (trim_right_hyphen s), length-trim_right_hyphen s)

last?-unless_last :
    (c : ℕ) (s : Bytes) → last? s ≢ some b'-' → last? (unless_last_hyphen c s) ≢ some b'-'
last?-unless_last c [] n = elim (Bool-cases (c == b'-')) [
  | inl e ↦ rw e (λ h. cc)
  | inr e ↦ rw e (λ h. ground arith)
]
last?-unless_last c (d ∷ s) n = n

last?-trim_right_hyphen : (s : Bytes) → last? (trim_right_hyphen s) ≢ some b'-'
unfolding trim_right_hyphen
last?-trim_right_hyphen [] = λ h. cc
last?-trim_right_hyphen (c ∷ s) =
    last?-unless_last c (trim_right_hyphen s) (last?-trim_right_hyphen s)

unless_last-nonempty : (c : ℕ) (s : Bytes) → (c == b'-') ≡ false → unless_last_hyphen c s ≢ []
unless_last-nonempty c [] e = rw e (λ h. cc)
unless_last-nonempty c (d ∷ s) e = λ h. cc

trim_right_hyphen-nonempty :
    (c : ℕ) (s : Bytes) → is_slug_rune c ≡ true → trim_right_hyphen (c ∷ s) ≢ []
unfolding trim_right_hyphen
trim_right_hyphen-nonempty c s h = unless_last-nonempty c (trim_right_hyphen s) (hyphen_no_rune c h)

cut-IsSlug :
    (c : ℕ) (s : Bytes) → Spaced true (c ∷ s) → IsSlug (trim_right_hyphen (take max_len (c ∷ s)))
cut-IsSlug c s (inr (hc, hb, h)) = cc
cut-IsSlug c s (inl (hc, h)) = record {
  not_empty = trim_right_hyphen-nonempty c (take 79 s) hc;
  at_most =
      omega (arith, length-trim_right_hyphen (take max_len (c ∷ s)), length-take max_len (c ∷ s));
  spaced =
      Spaced-trim_right_hyphen true (take max_len (c ∷ s))
        (Spaced-take true max_len (c ∷ s) (inl (hc, h)));
  no_trailing = last?-trim_right_hyphen (take max_len (c ∷ s));
}

untitled-IsSlug : IsSlug untitled
unfolding is_slug_rune
untitled-IsSlug = record {
  not_empty = λ h. cc;
  at_most = omega arith;
  spaced = inl (
    refl,
    inl (refl, inl (refl, inl (refl, inl (refl, inl (refl, inl (refl, inl (refl, tt))))))),
  );
  no_trailing = λ h. ground arith;
}

finish-IsSlug : (s : Bytes) → Spaced true s → last? s ≢ some b'-' → IsSlug (finish s)
unfolding finish
finish-IsSlug [] h n = untitled-IsSlug
finish-IsSlug (c ∷ s) h n = elim (Bool-cases (leb (length (c ∷ s)) max_len)) [
  | inl e ↦ rw e (record {
    not_empty = λ k. cc;
    at_most = leb→le (length (c ∷ s)) 80 e;
    spaced = h;
    no_trailing = n;
  })
  | inr e ↦ rw e (cut-IsSlug c s h)
]

-- Whatever the title and whatever Unicode folding and lowering make of it, Slugify gives a slug:
-- not empty, at most 80 bytes, only lowercase ASCII letters, digits and hyphens, no hyphen at either
-- end and no two in a row.
pub slugify-IsSlug : (u : Unicode) (title : Bytes) → IsSlug (slugify u title)
unfolding slugify ends
slugify-IsSlug u title =
    let runes : List ℕ = u.lower_runes (or_title (u.fold title) title) in
    let b : Builder = write_runes (record { out = []; last_hyphen = true }) runes in
    let w =
      write_runes-Written runes (record { out = []; last_hyphen = true })
        (record { spaced = tt; hyphen = refl }) in
    rw (trim_left_hyphen-Spaced b.out w.spaced) (
      finish-IsSlug (trim_right_hyphen b.out) (Spaced-trim_right_hyphen true b.out w.spaced)
        (last?-trim_right_hyphen b.out))
