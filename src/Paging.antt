-- ===== src/Paging.antt =====
-- parsePagination, of which internal/handlers/public/entries.go and internal/handlers/bin/lists.go
-- have a copy each, and the limit of the lists with cursors. A query parameter is empty where it is
-- absent.
pub mod Bounds
use diarion_core.Prelude.{ℕ, Bool, Option, none, some, [], ◌∷◌, ltb, if◌then◌else◌, Bytes}
use diarion_core.Prelude.Int.{ℤ, pos, negsuc}
use diarion_core.Stdlib.ParseInt.{parse_int}

abbrev pub default_limit : ℕ
default_limit = 20

abbrev pub max_limit : ℕ
max_limit = 100

-- `n > 0`; zero and what does not parse leave the default.
abbrev pub or_default : Option ℤ → ℕ
or_default none = default_limit
or_default (some (negsuc n)) = default_limit
or_default (some (pos n)) = if ltb 0 n then n else default_limit

abbrev pub capped : ℕ → ℕ
capped n = if ltb max_limit n then max_limit else n

-- `n >= 0`.
abbrev pub or_zero : Option ℤ → ℕ
or_zero none = 0
or_zero (some (negsuc n)) = 0
or_zero (some (pos n)) = n

-- ParseInt refuses the empty text, for which the code does not call it.
unfoldable pub parse_limit : Bytes → ℕ
parse_limit raw = capped (or_default (parse_int 32 raw))

unfoldable pub parse_offset : Bytes → ℕ
parse_offset raw = or_zero (parse_int 32 raw)

unfoldable pub parse_pagination : Bytes → Bytes → ℕ × ℕ
parse_pagination limit offset = (parse_limit limit, parse_offset offset)
