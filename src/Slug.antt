-- ===== src/Slug.antt =====
-- internal/entries/slug/slug.go.
pub mod Shape
pub mod Suffix
mod Tests
use diarion_core.Prelude.{
  ℕ, ◌≡◌, Bool, true, false, ◌&&◌, ◌||◌, Option, none, some, List, [], ◌∷◌, ◌++◌, leb, ◌==◌,
  if◌then◌else◌, length, take, Bytes, codes,
}
use diarion_core.Stdlib.Strings.{trim_left_hyphen, trim_right_hyphen, itoa}

-- golang.org/x/text's transform, which may fail, and strings.ToLower with the runes of its result.
pub record Unicode : Type 0 where
  pub fold : Bytes → Option Bytes
  pub lower_runes : Bytes → List ℕ

abbrev pub max_len : ℕ
max_len = 80

unfoldable pub is_slug_rune : ℕ → Bool
is_slug_rune r = (leb b'a' r && leb r b'z') || (leb b'0' r && leb r b'9')

-- The builder and `lastHyphen`.
pub record Builder : Type 0 where
  pub out : Bytes
  pub last_hyphen : Bool

unfoldable pub write_rune : Builder → ℕ → Builder
write_rune b r =
    if is_slug_rune r
    then record { out = b.out ++ r ∷ []; last_hyphen = false }
    else if b.last_hyphen
    then b
    else record { out = b.out ++ b'-' ∷ []; last_hyphen = true }

unfoldable pub write_runes : Builder → List ℕ → Builder
write_runes b [] = b
write_runes b (r ∷ rs) = write_runes (write_rune b r) rs

abbrev pub or_title : Option Bytes → Bytes → Bytes
or_title (some folded) title = folded
or_title none title = title

abbrev pub untitled : Bytes
untitled = codes "untitled"

-- From the trimmed text on.
unfoldable pub finish : Bytes → Bytes
finish [] = untitled
finish (c ∷ s) =
    if leb (length (c ∷ s)) max_len then c ∷ s else trim_right_hyphen (take max_len (c ∷ s))

unfoldable pub slugify : Unicode → Bytes → Bytes
slugify u title =
    let runes = u.lower_runes (or_title (u.fold title) title) in
    let written = write_runes (record { out = []; last_hyphen = true }) runes in
    finish (trim_right_hyphen (trim_left_hyphen written.out))

unfoldable pub with_suffix : Bytes → ℕ → Bytes
with_suffix base n = if leb n 1 then base else base ++ b'-' ∷ itoa n
