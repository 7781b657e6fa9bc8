-- ===== src/Public/Global/Pages.antt =====
-- One page: the first rows behind a cursor, and the cursor behind its last row.
use diarion_core.Prelude.{
  ℕ, zero, suc, ◌<◌, ◌^◌, ◌≡◌, refl, ap, true, false, none, some, List, [], ◌∷◌, ◌++◌, arith, ◌==◌,
  length, take, last?, Bytes,
}
use diarion_core.Prelude.Int.{pos}
use diarion_core.Stdlib.Base64
use diarion_core.Cursor.{decode_published_at_id}
use diarion_core.Cursor.RoundTrip.{decode-encode_time}
use diarion_core.Db.Entries.Bin.{EntryWithAgent}
use diarion_core.Db.World.{World, Reply, go}
use diarion_core.Entries.Post.{is_empty}
use diarion_core.Public.Global.{optional, cursor_of}

module _ {A : Type 0} where
  -- A page that is full ends with a row.
  pub record FullPage (n : ℕ) (xs : List A) : Type 0 where
    pub pre : List A
    pub last : A
    pub post : List A
    pub page : take n xs ≡ pre ++ last ∷ []
    pub whole : xs ≡ pre ++ last ∷ post

  take-FullPage : (n : ℕ) (xs : List A) → length (take (suc n) xs) ≡ suc n → FullPage (suc n) xs
  take-FullPage n [] h = absurd (omega arith)
  take-FullPage zero (x ∷ xs) h = record {
    pre = [];
    last = x;
    post = xs;
    page = refl;
    whole = refl;
  }
  take-FullPage (suc n) (x ∷ xs) h =
      let p = take-FullPage n xs (omega (arith, h)) in
      record {
        pre = x ∷ p.pre;
        last = p.last;
        post = p.post;
        page = ap (◌∷◌ x) p.page;
        whole = ap (◌∷◌ x) p.whole;
      }

  pub full_page : (n : ℕ) (xs : List A) → 0 < n → length (take n xs) == n ≡ true → FullPage n xs
  full_page zero xs h e = absurd (omega arith)
  full_page (suc n) xs h e = take-FullPage n xs (ground arith)

  pub take_short : (n : ℕ) (xs : List A) → length (take n xs) == n ≡ false → take n xs ≡ xs
  take_short zero xs e = cc
  take_short (suc n) [] e = refl
  take_short (suc n) (x ∷ xs) e = ap (◌∷◌ x) (take_short n xs (ground arith))

  pub last?-append : (pre : List A) (z : A) → last? (pre ++ z ∷ []) ≡ some z
  last?-append [] z = refl
  last?-append (x ∷ []) z = refl
  last?-append (x ∷ y ∷ pre) z = last?-append (y ∷ pre) z

-- A row whose cursor the int64s of a cursor can hold.
abbrev pub Fits : EntryWithAgent → Type 0
Fits r = (r.entry.published_at < 2 ^ 63) × (r.entry.id < 2 ^ 63)

-- A cursor's text is read back, and is not empty.
pub record ReadBack (R : Type 0) (refusal : Reply R) (z : EntryWithAgent) (w : World) : Type 0 where
  pub shown : is_empty (cursor_of z) ≡ false
  pub reads :
      optional decode_published_at_id refusal (cursor_of z) w
      ≡ (go (some (pos z.entry.published_at, pos z.entry.id)), w)

decode-nil : decode_published_at_id [] ≡ none
unfolding decode_published_at_id Base64.decode
decode-nil = refl

pub cursor_of-ReadBack :
    (R : Type 0) (refusal : Reply R) (z : EntryWithAgent) (w : World)
    → Fits z
    → ReadBack R refusal z w
cursor_of-ReadBack R refusal z w f =
    from (cursor_of z) refl (decode-encode_time (pos z.entry.published_at) (pos z.entry.id) f.0 f.1)
  where
    from :
        (s : Bytes)
        → cursor_of z ≡ s
        → decode_published_at_id s ≡ some (pos z.entry.published_at, pos z.entry.id)
        → ReadBack R refusal z w
    from [] e d = cc decode-nil
    from (c ∷ s) e d = record { shown = rw e refl; reads = rw (e, d) refl }
