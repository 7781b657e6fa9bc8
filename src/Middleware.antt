-- ===== src/Middleware.antt =====
-- internal/middleware/auth/middleware.go: who a request comes from.
pub mod Attached
pub mod Alone
pub mod Calm
mod Tests
use diarion_core.Prelude.{ℕ, Bool, true, false, not, ◌||◌, Option, none, some, if◌then◌else◌, Bytes}
use diarion_core.Prelude.Result.{Result, ok, err}
use diarion_core.Db.Models.{User, Session, PersonalAccessToken}
use diarion_core.Db.Agents.{is_some}
use diarion_core.Db.Users.{get_user_by_id}
use diarion_core.Db.Tokens.{get_pat_by_hash, touch_pat}
use diarion_core.Db.World.{
  World, DbError, Reply, http_error, Handler, call, pure, require, ◌>>=◌, ◌>>◌,
}
use diarion_core.Session.{lookup}
use diarion_core.Pat.{parse_from_header, hash}

-- User, which the middleware attaches to the request.
pub record AuthUser : Type 0 where
  pub user : User
  pub via_pat : Bool

-- What a request carries: the session cookie if there is one, and the Authorization header.
pub record Credentials : Type 0 where
  pub cookie : Option Bytes
  pub authorization : Bytes

abbrev pub is_barred : User → Bool
is_barred u = is_some u.suspended_at || is_some u.deleted_at

module _ {X : Type 0} where
  abbrev pub session_user : Result DbError User → Handler X (Option AuthUser)
  session_user (err e) = pure none
  session_user (ok u) =
      if is_barred u then pure none else pure (some (record { user = u; via_pat = false }))

  abbrev pub from_session : Option Session → Handler X (Option AuthUser)
  from_session none = pure none
  from_session (some s) = call (get_user_by_id s.user_id) >>= session_user

  unfoldable pub resolve_from_session : Credentials → Handler X (Option AuthUser)
  resolve_from_session c = lookup c.cookie >>= from_session

  -- Touching the token may fail.
  abbrev pub token_user : PersonalAccessToken → Result DbError User → Handler X (Option AuthUser)
  token_user row (err e) = pure none
  token_user row (ok u) =
      if is_barred u
      then pure none
      else call (touch_pat row.id) >> pure (some (record { user = u; via_pat = true }))

  abbrev pub from_token : Result DbError PersonalAccessToken → Handler X (Option AuthUser)
  from_token (err e) = pure none
  from_token (ok row) = call (get_user_by_id row.user_id) >>= token_user row

  abbrev pub from_header : (Bytes → Bytes) → Option Bytes → Handler X (Option AuthUser)
  from_header sha256 none = pure none
  from_header sha256 (some plain) = call (get_pat_by_hash (hash sha256 plain)) >>= from_token

  unfoldable pub resolve_from_pat : (Bytes → Bytes) → Credentials → Handler X (Option AuthUser)
  resolve_from_pat sha256 c = from_header sha256 (parse_from_header c.authorization)

  abbrev pub or_token :
      (Bytes → Bytes) → Credentials → Option AuthUser → Handler X (Option AuthUser)
  or_token sha256 c (some u) = pure (some u)
  or_token sha256 c none = resolve_from_pat sha256 c

  -- What Middleware attaches before it passes the request on.
  unfoldable pub attach : (Bytes → Bytes) → Credentials → Handler X (Option AuthUser)
  attach sha256 c = resolve_from_session c >>= or_token sha256 c

abbrev pub require_user : {X : Type 0} → Option AuthUser → Handler (Reply X) AuthUser
require_user attached = require attached (http_error 401 "unauthorized")
