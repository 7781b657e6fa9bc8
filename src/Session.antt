-- ===== src/Session.antt =====
-- internal/auth/session/session.go. What net/http reads of the cookie is an argument, and so are the
-- random bytes; the cookie that a response sets is given by its value and its expiry.
use diarion_core.Prelude.{ℕ, ◌+◌, ◌*◌, Option, none, some, [], ◌∷◌, Bytes}
use diarion_core.Prelude.Result.{Result, ok, err}
use diarion_core.Stdlib.Hex
use diarion_core.Stdlib.Strings.{trim_space}
use diarion_core.Db.Models.{Time, Session}
use diarion_core.Db.World.{DbError, Handler, call, pure, ◌>>=◌, ◌>>◌}
use diarion_core.Db.Sessions.{
  insert_session, get_session_by_token, touch_session, delete_session, delete_all_sessions_for_user,
}

-- TTL, in nanoseconds.
abbrev pub ttl : ℕ
ttl = 30 * 24 * 3600 * 1000000000

-- A cookie's value with its expiry, or a cleared one.
pub data SetCookie : Type 0 where
  set : Bytes → Time → SetCookie
  clear : SetCookie

pub data SessionError : Type 0 where
  no_random : SessionError
  failed : DbError → SessionError

abbrev pub issued :
    Bytes → Time → Result DbError Session → Result SessionError (Session × SetCookie)
issued token expires (ok s) = ok (s, set token expires)
issued token expires (err e) = err (failed e)

abbrev revoked : Result DbError (Unit {0}) → Result SessionError SetCookie
revoked (ok u) = ok clear
revoked (err e) = err (failed e)

module _ {X : Type 0} where
  unfoldable pub issue : Option Bytes → ℕ → Handler X (Result SessionError (Session × SetCookie))
  issue none user w = pure (err no_random) w
  issue (some buf) user w =
      let expires = w.now + ttl in
      (call (insert_session (Hex.encode buf) user expires) >>= λ r.
      pure (issued (Hex.encode buf) expires r))
        w

  abbrev pub touched : Result DbError Session → Handler X (Option Session)
  touched (err e) = pure none
  touched (ok s) = call (touch_session s.id) >> pure (some s)

  abbrev pub lookup_token : Bytes → Handler X (Option Session)
  lookup_token [] = pure none
  lookup_token (c ∷ s) = call (get_session_by_token (c ∷ s)) >>= touched

  -- `none` stands for ErrNoSession. Touching the session may fail.
  unfoldable pub lookup : Option Bytes → Handler X (Option Session)
  lookup none = pure none
  lookup (some value) = lookup_token (trim_space value)

  abbrev revoke_found : Option Session → Handler X (Result SessionError SetCookie)
  revoke_found none = pure (ok clear)
  revoke_found (some s) = call (delete_session s.id) >>= λ r. pure (revoked r)

  unfoldable pub revoke : Option Bytes → Handler X (Result SessionError SetCookie)
  revoke cookie = lookup cookie >>= revoke_found

  unfoldable pub revoke_all_for_user : ℕ → Handler X (Result SessionError SetCookie)
  revoke_all_for_user user = call (delete_all_sessions_for_user user) >>= λ r. pure (revoked r)
