-- ===== src/Pat.antt =====
-- internal/auth/pat/pat.go: the shape of a personal access token and how it is read from an
-- Authorization header. SHA-256 is a parameter, and the random bytes that are read an argument.
pub mod Shape
mod Tests
use diarion_core.Prelude.{
  ℕ, ◌*◌, ◌≡◌, not, Option, none, some, ◌++◌, ◌==◌, if◌then◌else◌, length, Bytes, codes,
  strip_prefix,
}
use diarion_core.Prelude.Partial.{◌>>=◌}
use diarion_core.Stdlib.Hex
use diarion_core.Stdlib.Strings.{trim_space}

abbrev pub prefix : Bytes
prefix = codes "diarion_pat_"

abbrev pub token_len : ℕ
token_len = 32

abbrev pub bearer_prefix : Bytes
bearer_prefix = codes "Bearer "

pub record Generated : Type 0 where
  pub plaintext : Bytes
  pub token_hash : Bytes

module _ (sha256 : Bytes → Bytes) where
  unfoldable pub hash : Bytes → Bytes
  hash plaintext = Hex.encode (sha256 plaintext)

  -- `none` for the random source is a failed read.
  unfoldable pub generate : Option Bytes → Option Generated
  unfolding hash
  generate random = do
    buf ← random
    let plain = prefix ++ Hex.encode buf
    some (record { plaintext = plain; token_hash = hash plain })

-- The last two tests, on the token and the text behind its prefix.
check_body : Bytes → Bytes → Option Bytes
check_body tok body =
    if not (length body == 2 * token_len) then none else do raw ← Hex.decode body; some tok

-- `none` stands for ErrMalformed. An empty header has no "Bearer " in front.
unfoldable pub parse_from_header : Bytes → Option Bytes
unfolding check_body
parse_from_header header = do
  rest ← strip_prefix bearer_prefix header
  let tok = trim_space rest
  body ← strip_prefix prefix tok
  check_body tok body
