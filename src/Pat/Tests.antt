-- ===== src/Pat/Tests.antt =====
-- Tokens at concrete inputs.
use diarion_core.Prelude.{
  ◌≡◌, refl, [], some, none, ◌++◌, replicate, codes, strip_prefix, Bytes, arith,
}
use diarion_core.Pat.{prefix, bearer_prefix, Generated, generate, parse_from_header}
use diarion_core.Pat.Shape.{IsToken, parse-generate, parse-IsToken}
use diarion_core.Stdlib.Strings.{trim_space}
use diarion_core.Stdlib.Hex

refused :
    (parse_from_header [] ≡ none)
    × (parse_from_header (codes "Basic abc") ≡ none)
    × (parse_from_header (codes "Bearer diarion_pat_00") ≡ none)
unfolding parse_from_header strip_prefix trim_space
refused = (refl, refl, refl)

abbrev zero_token : Bytes
zero_token = prefix ++ replicate 64 b'0'

accepted : parse_from_header (codes "Bearer   " ++ zero_token ++ codes " ") ≡ some zero_token
unfolding parse_from_header strip_prefix trim_space Hex.decode
accepted = refl

parse-generate_example :
    (g : Generated) × (generate (λ s. s) (some (replicate 32 171)) ≡ some g)
    × (parse_from_header (bearer_prefix ++ g.plaintext) ≡ some g.plaintext)
parse-generate_example = parse-generate (λ s. s) (replicate 32 171) (omega arith) refl

parse-IsToken_example :
    IsToken zero_token
    × ((rest : Bytes) × (codes "Bearer   " ++ zero_token ++ codes " " ≡ bearer_prefix ++ rest)
        × (zero_token ≡ trim_space rest))
parse-IsToken_example =
    parse-IsToken (codes "Bearer   " ++ zero_token ++ codes " ") zero_token accepted
