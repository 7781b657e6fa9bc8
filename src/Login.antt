-- ===== src/Login.antt =====
-- internal/handlers/auth: login with Google and logout. Redis, the identity provider, net/url's
-- Parse, encoding/json and SHA-256 are parameters; random bytes are arguments.
pub mod State
pub mod Upsert
pub mod SignedIn
pub mod Answered
mod Tests
use diarion_core.Prelude.{
  ℕ, Bool, true, false, not, ◌&&◌, ◌||◌, Option, none, some, [], ◌∷◌, ◌++◌, ◌==◌, if◌then◌else◌,
  Bytes,
}
use diarion_core.Prelude.Result.{Result, ok, err}
use diarion_core.Db.Models.{Time, User, Session}
use diarion_core.Db.World.{
  World, DbError, Reply, http_error, no_body, json, Nothing, Flow, go, stop, Handler, pure, return,
  require, guard, or_return, ◌>>=◌, ◌>>◌, serve,
}
use diarion_core.Session.{SessionError, SetCookie, revoke, revoke_all_for_user}
use diarion_core.Session as Sessions
use diarion_core.Middleware.{AuthUser, require_user}
use diarion_core.Entries.Post.{is_empty}
use diarion_core.Bin.{internal_error}
use diarion_core.Login.State.{Redis, StatePayload, Codec, Nonces, issue, consume}
use diarion_core.Login.Upsert.{Claims, upsert_user}

-- The parts of a parsed URL that are looked at.
pub record Url : Type 0 where
  pub scheme : Bytes
  pub host : Bytes

-- Handlers, and the calls of other packages.
pub record Handlers (S : Type 0) : Type 0 where
  pub redis : Redis S
  pub codec : Codec
  pub auth_code_url : Bytes → Bytes → Bytes
  pub exchange : Bytes → Bytes → Option Claims
  pub parse_url : Bytes → Option Url

-- http.Redirect: where to, and the cookie that is set with it.
pub record Redirect : Type 0 where
  pub location : Bytes
  pub cookie : Option SetCookie

abbrev pub found : Redirect → Reply Redirect
found r = json 302 r

abbrev is_local : Option Url → Bool
is_local none = false
is_local (some u) = is_empty u.scheme && is_empty u.host

abbrev starts_with_slash : Bytes → Bool
starts_with_slash [] = false
starts_with_slash (c ∷ s) = c == b'/'

unfoldable pub is_safe_return : (Bytes → Option Url) → Bytes → Bool
is_safe_return parse u = not (is_empty u) && is_local (parse u) && starts_with_slash u

abbrev pub safe_or_root : (Bytes → Option Url) → Bytes → Bytes
safe_or_root parse u = if is_safe_return parse u then u else b'/' ∷ []

-- The parameters of the callback, each empty where it is absent.
pub record Callback : Type 0 where
  pub error : Bytes
  pub state : Bytes
  pub code : Bytes

abbrev pub or_session_error :
    Result SessionError (Session × SetCookie) → Handler (Reply Redirect) SetCookie
or_session_error (ok (s, c)) = pure c
or_session_error (err e) = return (http_error 500 "internal error")

module _ {S : Type 0} (h : Handlers S) where
  abbrev started : Option (Bytes × Bytes) × S → Reply Redirect × S
  started (none, s) = (http_error 500 "internal error", s)
  started (some (state, challenge), s) =
      (found (record { location = h.auth_code_url state challenge; cookie = none }), s)

  -- The query's return_url is empty where it is absent.
  unfoldable pub google_start : Nonces → Bytes → Time → S → Reply Redirect × S
  google_start nonces return_url now s =
      started (issue h.redis h.codec nonces (safe_or_root h.parse_url return_url) now s)

  -- Exchange, the user's row, and the session; `random` is read for the session.
  abbrev pub sign_in_steps :
      Option Bytes → Bytes → Bytes → Bytes → Handler (Reply Redirect) (Reply Redirect)
  sign_in_steps random code verifier return_url = do
    claims ← require (h.exchange code verifier) (http_error 502 "exchange failed")
    upserted ← upsert_user claims
    user ← or_return internal_error upserted
    opened ← Sessions.issue random user.id
    cookie ← or_session_error opened
    pure (found (record { location = safe_or_root h.parse_url return_url; cookie = some cookie }))

  abbrev pub consumed :
      Option Bytes → Bytes → Option (Bytes × Bytes) × S → World → Reply Redirect × S × World
  consumed random code (none, s) w = (http_error 400 "invalid or expired state", s, w)
  consumed random code (some (verifier, return_url), s) w =
      let (reply, w') = serve (sign_in_steps random code verifier return_url w) in (reply, s, w')

  -- The text of the first answer goes on with the provider's error.
  unfoldable pub google_callback : Option Bytes → Callback → S → World → Reply Redirect × S × World
  google_callback random cb s w =
      if not (is_empty cb.error)
      then (http_error 400 "oauth provider error: ", s, w)
      else if is_empty cb.state || is_empty cb.code
      then (http_error 400 "missing state or code", s, w)
      else consumed random cb.code (consume h.redis h.codec cb.state w.now s) w

-- The answer of a logout, with the cookie that it sets.
pub record LoggedOut : Type 0 where
  pub cookie : Option SetCookie

abbrev pub logged_out : Result SessionError SetCookie → Reply LoggedOut
logged_out (ok c) = json 204 (record { cookie = some c })
logged_out (err e) = http_error 500 "internal error"

unfoldable pub logout : Option Bytes → World → Reply LoggedOut × World
logout cookie w = serve ((revoke cookie >>= λ r. pure (logged_out r)) w)

unfoldable pub logout_all : Option AuthUser → World → Reply LoggedOut × World
logout_all attached w =
    serve (
      (require_user attached >>= λ u. revoke_all_for_user u.user.id >>= λ r. pure (logged_out r)) w)
