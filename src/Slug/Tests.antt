-- ===== src/Slug/Tests.antt =====
-- Slugs of concrete titles, with folding that leaves ASCII alone.
use diarion_core.Prelude.{◌≡◌, ◌≢◌, refl, some, codes, arith}
use diarion_core.Stdlib.Strings.{to_lower, to_lower_byte, trim_left_hyphen, trim_right_hyphen}
use diarion_core.Slug.{Unicode, is_slug_rune, write_rune, write_runes, finish, slugify, with_suffix}
use diarion_core.Slug.Shape.{IsSlug, slugify-IsSlug}
use diarion_core.Slug.Suffix.{with_suffix-distinct}

abbrev ascii : Unicode
ascii = record { fold = some; lower_runes = to_lower }

spaced_title : slugify ascii (codes " Hello,  World! ") ≡ codes "hello-world"
unfolding slugify write_runes write_rune is_slug_rune finish to_lower to_lower_byte trim_left_hyphen
    trim_right_hyphen
spaced_title = refl

no_letters : slugify ascii (codes "?!") ≡ codes "untitled"
unfolding slugify write_runes write_rune is_slug_rune finish to_lower to_lower_byte trim_left_hyphen
    trim_right_hyphen
no_letters = refl

slugify-IsSlug_example : IsSlug (slugify ascii (codes " Hello,  World! "))
slugify-IsSlug_example = slugify-IsSlug ascii (codes " Hello,  World! ")

with_suffix-distinct_example : with_suffix (codes "post") 2 ≢ with_suffix (codes "post") 11
with_suffix-distinct_example =
    with_suffix-distinct (codes "post") 2 11 (omega arith) (omega arith) (λ e. omega (arith, e))
