-- ===== src/Me.antt =====
-- internal/handlers/me: the profile of the user of a request, its access tokens, and the deletion of
-- the account. A request's body is what encoding/json makes of it, `none` for an error; the random
-- bytes of a token are an argument. Times are not rendered.
pub mod Created
pub mod Deleted
mod Tests
use diarion_core.Prelude.{ℕ, ◌+◌, Bool, true, not, Option, none, some, List, map, Bytes}
use diarion_core.Prelude.Int.{ℤ, pos, negsuc}
use diarion_core.Prelude.Result.{Result, ok, err}
use diarion_core.Stdlib.ParseInt.{parse_int}
use diarion_core.Db.Models.{Time, PersonalAccessToken}
use diarion_core.Db.Agents.{thirty_days, soft_delete_agents_by_user}
use diarion_core.Db.Users.{mark_user_deleted}
use diarion_core.Db.Tokens.{InsertPatParams, insert_pat, list_pats_for_user, revoke_pat}
use diarion_core.Db.World.{
  World, Query, Reply, http_error, no_body, json, Nothing, Handler, clock, call, pure, require,
  guard, or_return, then_query, transaction, ◌>>=◌, ◌>>◌, serve,
}
use diarion_core.Pat.{Generated, generate}
use diarion_core.Session.{SessionError, SetCookie, revoke_all_for_user}
use diarion_core.Middleware.{AuthUser, require_user}
use diarion_core.Entries.Post.{is_empty}
use diarion_core.Bin.{internal_error}

pub record Profile : Type 0 where
  pub id : ℕ
  pub email : Bytes
  pub email_verified : Bool
  pub display_name : Bytes
  pub avatar_url : Option Bytes
  pub tier : Bytes
  pub via_pat : Bool
  pub created_at : Time

abbrev pub profile_of : AuthUser → Profile
profile_of u = record {
  id = u.user.id;
  email = u.user.email;
  email_verified = u.user.email_verified;
  display_name = u.user.display_name;
  avatar_url = u.user.avatar_url;
  tier = u.user.tier;
  via_pat = u.via_pat;
  created_at = u.user.created_at;
}

unfoldable pub get : Option AuthUser → World → Reply Profile × World
get attached w = serve ((require_user attached >>= λ u. pure (json 200 (profile_of u))) w)

pub record CreateTokenRequest : Type 0 where
  pub name : Bytes
  pub expires_at : Option Time

pub record CreateTokenResponse : Type 0 where
  pub id : ℕ
  pub name : Bytes
  pub token : Bytes
  pub created_at : Time
  pub expires_at : Option Time

abbrev pub token_params : ℕ → Generated → CreateTokenRequest → InsertPatParams
token_params user g req = record {
  user_id = user;
  token_hash = g.token_hash;
  name = req.name;
  expires_at = req.expires_at;
}

abbrev pub token_response : Generated → PersonalAccessToken → CreateTokenResponse
token_response g row = record {
  id = row.id;
  name = row.name;
  token = g.plaintext;
  created_at = row.created_at;
  expires_at = row.expires_at;
}

module _ (sha256 : Bytes → Bytes) (random : Option Bytes) where
  abbrev pub create_token_steps :
      Option AuthUser
      → Option CreateTokenRequest
      → Handler (Reply CreateTokenResponse) (Reply CreateTokenResponse)
  create_token_steps attached body = do
    u ← require_user attached
    guard (not u.via_pat) (http_error 403 "tokens may only be created from a browser session")
    req ← require body (http_error 400 "invalid JSON body")
    guard (not (is_empty req.name)) (http_error 400 "name is required")
    g ← require (generate sha256 random) (http_error 500 "internal error")
    inserted ← call (insert_pat (token_params u.user.id g req))
    row ← or_return internal_error inserted
    pure (json 201 (token_response g row))

  unfoldable pub create_token :
      Option AuthUser → Option CreateTokenRequest → World → Reply CreateTokenResponse × World
  create_token attached body w = serve (create_token_steps attached body w)

pub record ListTokenItem : Type 0 where
  pub id : ℕ
  pub name : Bytes
  pub last_used_at : Option Time
  pub expires_at : Option Time
  pub created_at : Time

abbrev pub item_of : PersonalAccessToken → ListTokenItem
item_of row = record {
  id = row.id;
  name = row.name;
  last_used_at = row.last_used_at;
  expires_at = row.expires_at;
  created_at = row.created_at;
}

abbrev pub list_tokens_steps :
    Option AuthUser → Handler (Reply (List ListTokenItem)) (Reply (List ListTokenItem))
list_tokens_steps attached = do
  u ← require_user attached
  listed ← call (list_pats_for_user u.user.id)
  rows ← or_return internal_error listed
  pure (json 200 (map item_of rows))

unfoldable pub list_tokens : Option AuthUser → World → Reply (List ListTokenItem) × World
list_tokens attached w = serve (list_tokens_steps attached w)

-- No row has a negative id, so the statement does nothing with one.
unfoldable pub revoke_pat_at : ℤ → ℕ → Query (Unit {0})
revoke_pat_at (pos id) user = revoke_pat id user
revoke_pat_at (negsuc id) user = λ now db. (ok tt, db)

abbrev pub revoke_token_steps : Option AuthUser → Bytes → Handler (Reply Nothing) (Reply Nothing)
revoke_token_steps attached raw = do
  u ← require_user attached
  id ← require (parse_int 64 raw) (http_error 400 "invalid token id")
  revoked ← call (revoke_pat_at id u.user.id)
  done ← or_return internal_error revoked
  pure (no_body 204)

unfoldable pub revoke_token : Option AuthUser → Bytes → World → Reply Nothing × World
revoke_token attached raw w = serve (revoke_token_steps attached raw w)

-- The answer to a deletion, with the cookie that it sets.
pub record DeleteResponse : Type 0 where
  pub deleted : Bool
  pub hard_delete_at : Time
  pub cookie : Option SetCookie

-- softDeleteUserTx.
unfoldable pub soft_delete_user_tx : ℕ → Query (Unit {0})
soft_delete_user_tx user =
    transaction (then_query (mark_user_deleted user) (λ u. soft_delete_agents_by_user user))

abbrev pub cookie_of : Result SessionError SetCookie → Option SetCookie
cookie_of (ok c) = some c
cookie_of (err e) = none

-- The sessions are revoked as far as that succeeds.
abbrev pub delete_steps : Option AuthUser → Handler (Reply DeleteResponse) (Reply DeleteResponse)
delete_steps attached = do
  u ← require_user attached
  marked ← call (soft_delete_user_tx u.user.id)
  done ← or_return internal_error marked
  revoked ← revoke_all_for_user u.user.id
  now ← clock
  pure (
      json 202
        (record { deleted = true; hard_delete_at = now + thirty_days; cookie = cookie_of revoked }))

unfoldable pub delete : Option AuthUser → World → Reply DeleteResponse × World
delete attached w = serve (delete_steps attached w)
