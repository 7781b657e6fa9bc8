-- ===== src/Me/Tests.antt =====
-- Ann makes a token, uses it, revokes it, and deletes her account.
use diarion_core.Prelude.{
  ◌≡◌, refl, false, true, some, none, Option, ◌++◌, Bytes, codes, replicate, arith, bytes_eq, ◌+◌,
  ◌==◌,
}
use diarion_core.Stdlib.Hex
use diarion_core.Stdlib.ParseInt.{parse_int}
use diarion_core.Prelude.Int.{pos}
use diarion_core.Db.Agents.{thirty_days}
use diarion_core.Db.Sample.{ann, sample_db}
use diarion_core.Db.World.{World, json, no_body, Nothing, go, call, quiet}
use diarion_core.Db.Tokens.{insert_pat, revoke_pat}
use diarion_core.Db.Table.{first_where, update_where}
use diarion_core.Pat.{generate, prefix, bearer_prefix}
use diarion_core.Middleware.{AuthUser, attach}
use diarion_core.Middleware.Alone.{bearing}
use diarion_core.Me.{
  CreateTokenRequest, CreateTokenResponse, create_token, revoke_pat_at, revoke_token, delete,
}
use diarion_core.Me.Created.{create_token-attach, create_token-revoke_token}
use diarion_core.Me.Deleted.{LockedOut, delete-LockedOut}

abbrev start : World
start = quiet 100 sample_db

abbrev as_ann : AuthUser
as_ann = record { user = ann; via_pat = false }

abbrev request : Option CreateTokenRequest
request = some (record { name = codes "ci"; expires_at = some 500 })

abbrev random : Bytes
random = replicate 32 7

abbrev handed : CreateTokenResponse
handed = record {
  id = 1;
  name = codes "ci";
  token = prefix ++ Hex.encode random;
  created_at = 100;
  expires_at = some 500;
}

abbrev with_token : World
with_token = (create_token (λ s. s) (some random) (some as_ann) request start).1

create_token_runs :
    create_token (λ s. s) (some random) (some as_ann) request start ≡ (json 201 handed, with_token)
unfolding create_token call insert_pat generate bytes_eq Hex.encode
create_token_runs = refl

abbrev later : World
later = quiet 300 with_token.db

owner_found : first_where (λ v. v.id == as_ann.user.id) start.db.users ≡ some ann
unfolding first_where
owner_found = refl

create_token-attach_example :
    (w2 : World) × (attach {X = Nothing} (λ s. s) (bearing (bearer_prefix ++ handed.token)) later
      ≡ (go (some (record { user = ann; via_pat = true })), w2))
create_token-attach_example =
    create_token-attach (λ s. s) random as_ann request start handed with_token later ann
      (omega arith) refl refl create_token_runs refl (refl, refl) refl owner_found refl

abbrev revoked : World
revoked = (revoke_token (some as_ann) (codes "1") later).1

revoke_token_runs : revoke_token (some as_ann) (codes "1") later ≡ (no_body 204, revoked)
unfolding revoke_token call revoke_pat_at revoke_pat update_where parse_int
revoke_token_runs = refl

one_parsed : parse_int 64 (codes "1") ≡ some (pos 1)
unfolding parse_int
one_parsed = refl

abbrev after : World
after = quiet 400 revoked.db

create_token-revoke_token_example :
    attach {X = Nothing} (λ s. s) (bearing (bearer_prefix ++ handed.token)) after ≡ (go none, after)
create_token-revoke_token_example =
    create_token-revoke_token (λ s. s) random as_ann request start handed with_token (codes "1")
      later revoked after (omega arith) refl refl create_token_runs refl refl one_parsed
      revoke_token_runs refl refl

delete-LockedOut_example :
    LockedOut as_ann.user.id
      (start.now + thirty_days)
      (delete (some as_ann) start).0
      (delete (some as_ann) start).1.db
delete-LockedOut_example =
    delete-LockedOut as_ann start (delete (some as_ann) start).1 (delete (some as_ann) start).0 refl
      refl
