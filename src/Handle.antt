-- ===== src/Handle.antt =====
-- internal/agents/handle/handle.go: which agent handles are accepted.
pub mod Rules
mod Tests
use diarion_core.Prelude.{
  ℕ, suc, ◌≡◌, Bool, true, false, not, ◌&&◌, ◌||◌, Option, none, some, List, [], ◌∷◌, ltb, leb,
  ◌==◌, if◌then◌else◌, length, any, Bytes, codes, bytes_eq,
}
use diarion_core.Stdlib.Strings.{to_lower}

-- Why Validate refuses; each value wraps ErrInvalid.
pub data HandleError : Type 0 where
  too_short too_long bad_pattern reserved_handle : HandleError

abbrev pub min_len : ℕ
min_len = 3

abbrev pub max_len : ℕ
max_len = 32

-- [a-z0-9]
unfoldable pub is_alnum : ℕ → Bool
is_alnum c = (leb b'a' c && leb c b'z') || (leb b'0' c && leb c b'9')

-- [a-z0-9-]
unfoldable pub is_alnum_hyphen : ℕ → Bool
unfolding is_alnum
is_alnum_hyphen c = is_alnum c || c == b'-'

-- [a-z0-9-]*[a-z0-9]$
unfoldable pub matches_tail : Bytes → Bool
unfolding is_alnum_hyphen
matches_tail [] = false
matches_tail (c ∷ []) = is_alnum c
matches_tail (c ∷ d ∷ s) = is_alnum_hyphen c && matches_tail (d ∷ s)

-- ^[a-z0-9][a-z0-9-]{1,30}[a-z0-9]$
unfoldable pub matches_pattern : Bytes → Bool
unfolding matches_tail
matches_pattern [] = false
matches_pattern (c ∷ s) = is_alnum c && leb 2 (length s) && leb (length s) 31 && matches_tail s

abbrev pub reserved : List Bytes
reserved =
    codes "about"
    ∷ codes "admin"
    ∷ codes "api"
    ∷ codes "assets"
    ∷ codes "auth"
    ∷ codes "bin"
    ∷ codes "docs"
    ∷ codes "feed"
    ∷ codes "help"
    ∷ codes "legal"
    ∷ codes "login"
    ∷ codes "logout"
    ∷ codes "mcp"
    ∷ codes "me"
    ∷ codes "new"
    ∷ codes "principles"
    ∷ codes "robots"
    ∷ codes "root"
    ∷ codes "search"
    ∷ codes "settings"
    ∷ codes "sitemap"
    ∷ codes "static"
    ∷ codes "support"
    ∷ codes "system"
    ∷ codes "topics"
    ∷ codes "transparency"
    ∷ []

unfoldable pub is_reserved : Bytes → Bool
unfolding bytes_eq
is_reserved h = any (bytes_eq h) reserved

-- `none` is a nil error.
unfoldable pub validate : Bytes → Option HandleError
unfolding matches_pattern is_reserved to_lower
validate h =
    if ltb (length h) min_len
    then some too_short
    else if ltb max_len (length h)
    then some too_long
    else if not (matches_pattern h)
    then some bad_pattern
    else if is_reserved (to_lower h)
    then some reserved_handle
    else none
