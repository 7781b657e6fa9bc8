-- ===== src/Me/Created.antt =====
-- An access token from its creation over its use to its revocation.
use diarion_core.Prelude.{
  ℕ, ◌≡◌, refl, sym, ap, subst, ◌∙◌, true, false, not, ◌++◌, Option, none, some, [], arith, ◌==◌,
  length, Bytes, IsBytes,
}
use diarion_core.Prelude.Int.{pos}
use diarion_core.Prelude.Result.{ok}
use diarion_core.Stdlib.ParseInt.{parse_int}
use diarion_core.Db.Models.{User, PersonalAccessToken}
use diarion_core.Db.Table.{first_where}
use diarion_core.Db.Tokens.{insert_pat, revoke_pat, not_over}
use diarion_core.Db.Tokens.Inserted.{insert_pat-Inserted, Inserted-found, Inserted-revoked}
use diarion_core.Db.World.{World, Reply, http_error, no_body, json, Nothing, go, call-runs}
use diarion_core.Db.World.Ran.{Ran, call-Ran}
use diarion_core.Db.Outcome.{Outcome, require_step, or_return_step, call_step, guard_step}
use diarion_core.Pat.{Generated, bearer_prefix, token_len, generate, hash, parse_from_header}
use diarion_core.Pat.Shape.{parse-generate}
use diarion_core.Middleware.{AuthUser, is_barred, attach}
use diarion_core.Middleware.Alone.{bearing, attach_token, attach_nobody}
use diarion_core.Entries.Accepted.{IsRefusal, Refuses, serve_or_refused}
use diarion_core.Entries.Post.{is_empty}
use diarion_core.Bin.{internal_error}
use diarion_core.Me.{
  CreateTokenRequest, CreateTokenResponse, token_params, token_response, create_token_steps,
  create_token, revoke_pat_at, revoke_token,
}

module _ (sha256 : Bytes → Bytes) (random : Option Bytes) (attached : Option AuthUser)
    (body : Option CreateTokenRequest) (w : World) where
  -- An answer of CreateToken.
  pub data Created : Reply CreateTokenResponse → World → Type 0 where
    refused : {w' : World} (x : Reply CreateTokenResponse) → IsRefusal x → Created x w'
    created :
        {w' : World} (u : AuthUser) (req : CreateTokenRequest) (g : Generated)
        (row : PersonalAccessToken)
        → attached ≡ some u
        → u.via_pat ≡ false
        → body ≡ some req
        → generate sha256 random ≡ some g
        → Ran (insert_pat (token_params u.user.id g req)) w row w'
        → Created (json 201 (token_response g row)) w'

  create_token_steps-Created :
      Outcome Created
        (Refuses CreateTokenResponse)
        (create_token_steps sha256 random attached body w)
  create_token_steps-Created =
      let S = Refuses CreateTokenResponse in
      require_step _ S attached (http_error 401 "unauthorized") _ w (omega arith) (λ u is_user.
        guard_step _ S (not u.via_pat)
          (http_error 403 "tokens may only be created from a browser session") _ w (omega arith)
          (λ by_session.
            require_step _ S body (http_error 400 "invalid JSON body") _ w (omega arith)
              (λ req is_req.
                guard_step _ S (not (is_empty req.name)) (http_error 400 "name is required") _ w
                  (omega arith)
                  (λ named.
                    require_step _ S (generate sha256 random) (http_error 500 "internal error") _ w
                      (omega arith)
                      (λ g is_g.
                        call_step _ S (insert_pat (token_params u.user.id g req)) _ w
                          (λ inserted w1 at_insert.
                            or_return_step _ S internal_error inserted _ w1 (λ e. omega arith)
                              (λ row is_row.
                                created u req g row is_user (ground (arith, by_session)) is_req is_g
                                  (call-Ran {X = Reply CreateTokenResponse}
                                    (insert_pat (token_params u.user.id g req)) w
                                    (rw is_row at at_insert)))))))))

  create_token-Created :
      (reply : Reply CreateTokenResponse) (w' : World)
      → create_token sha256 random attached body w ≡ (reply, w')
      → Created reply w'
  unfolding create_token
  create_token-Created reply w' e =
      serve_or_refused CreateTokenResponse Created
        (create_token_steps sha256 random attached body w) (λ x w1 r. refused x r)
        create_token_steps-Created e

-- The row of a token that was handed out.
record HandedOut (sha256 : Bytes → Bytes) (u : AuthUser) (w : World) (r : CreateTokenResponse)
    (w' : World) : Type 0 where
  req : CreateTokenRequest
  row : PersonalAccessToken
  inserted :
      insert_pat
        (record {
          user_id = u.user.id;
          token_hash = hash sha256 r.token;
          name = req.name;
          expires_at = req.expires_at;
        })
        w.now
        w.db
      ≡ (ok row, w'.db)
  same_id : r.id ≡ row.id
  expires : r.expires_at ≡ req.expires_at
  carried : parse_from_header (bearer_prefix ++ r.token) ≡ some r.token

generate-hash :
    (sha256 : Bytes → Bytes) (random : Bytes) (g : Generated)
    → generate sha256 (some random) ≡ some g
    → g.token_hash ≡ hash sha256 g.plaintext
unfolding generate
generate-hash sha256 random g h = ground arith

handed_out :
    (sha256 : Bytes → Bytes) (random : Bytes) (u : AuthUser) (body : Option CreateTokenRequest)
    (w : World) (r : CreateTokenResponse) (w' : World)
    → IsBytes random
    → length random ≡ token_len
    → w.schedule ≡ []
    → create_token sha256 (some random) (some u) body w ≡ (json 201 r, w')
    → HandedOut sha256 u w r w'
handed_out sha256 random u body w r w' b l alone e =
    from (json 201 r) refl
      (create_token-Created sha256 (some random) (some u) body w (json 201 r) w' e)
  where
    from :
        (reply : Reply CreateTokenResponse)
        → reply ≡ json 201 r
        → Created sha256 (some random) (some u) body w reply w'
        → HandedOut sha256 u w r w'
    from reply q (refused x n) = absurd (subst IsRefusal q n)
    from reply q (created u' req g row is_user by_session is_req is_g ran) =
        let (g', is_g', read_back) = parse-generate sha256 random b l in
        let same_g : g' ≡ g = cc in
        let same_u : u' ≡ u = cc in
        let p : token_response g row ≡ r = cc in
        let (inserted, _, _) = ran.alone alone in
        let i = insert_pat-Inserted (token_params u'.user.id g req) w.now w.db inserted in
        record {
          req = req;
          row = row;
          inserted = rw (← p, ← generate-hash sha256 random g is_g, ← same_u) inserted;
          same_id = ap (λ (t : CreateTokenResponse). t.id) (sym p);
          expires = ap (λ (t : CreateTokenResponse). t.expires_at) (sym p) ∙ i.expires;
          carried = rw (← p, ← same_g) read_back;
        }

revoke_token-left :
    (u : AuthUser) (raw : Bytes) (id : ℕ) (w w' : World) {reply : Reply Nothing}
    → w.schedule ≡ []
    → parse_int 64 raw ≡ some (pos id)
    → revoke_token (some u) raw w ≡ (reply, w')
    → revoke_pat id u.user.id w.now w.db ≡ (ok tt, w'.db)
unfolding revoke_token revoke_pat_at revoke_pat
revoke_token-left u raw id w w' alone is_id h =
    let one =
      call-runs {X = Reply Nothing} (revoke_pat_at (pos id) u.user.id) w (ok tt)
        (revoke_pat id u.user.id w.now w.db).1 alone refl in
    let k = rw (is_id, one) at h in rw (← ap (λ (p : Reply Nothing × World). p.1.db) k) refl

module _ (sha256 : Bytes → Bytes) (random : Bytes) (u : AuthUser) (body : Option CreateTokenRequest)
    (w : World) (r : CreateTokenResponse) (w' : World) where
  -- Alone, a token of 32 random bytes that CreateToken has handed out lets its bearer in as its user:
  -- as long as the tokens and the users are those that it left, the time of expiry has not come and
  -- the user is neither suspended nor deleted, the middleware attaches that user, by token, to a
  -- request with the token in its Authorization header.
  pub create_token-attach :
      (later : World) (owner : User)
      → IsBytes random
      → length random ≡ token_len
      → w.schedule ≡ []
      → create_token sha256 (some random) (some u) body w ≡ (json 201 r, w')
      → later.schedule ≡ []
      → (later.db.tokens ≡ w'.db.tokens) × (later.db.users ≡ w'.db.users)
      → not_over later.now r.expires_at ≡ true
      → first_where (λ v. v.id == u.user.id) w.db.users ≡ some owner
      → is_barred owner ≡ false
      → (w2 : World) × (attach {X = Nothing} sha256 (bearing (bearer_prefix ++ r.token)) later
          ≡ (go (some (record { user = owner; via_pat = true })), w2))
  create_token-attach later owner b l alone e alone' same live own free =
      let m = handed_out sha256 random u body w r w' b l alone e in
      let i = insert_pat-Inserted _ w.now w.db m.inserted in
      attach_token {X = Nothing} sha256 r.token (bearer_prefix ++ r.token) later alone' m.carried
        m.row owner (Inserted-found i later.now later.db same.0 (rw m.expires at live))
        (rw (i.of_user, same.1, i.users_same) own) free

  -- Alone, once RevokeToken has answered 204 to its user for the id of a token that CreateToken
  -- handed out, the middleware attaches nobody to a request that only carries that token, as long as
  -- the tokens are those that are left.
  pub create_token-revoke_token :
      (raw : Bytes) (w2 w3 later : World)
      → IsBytes random
      → length random ≡ token_len
      → w.schedule ≡ []
      → create_token sha256 (some random) (some u) body w ≡ (json 201 r, w')
      → w2.schedule ≡ []
      → w2.db.tokens ≡ w'.db.tokens
      → parse_int 64 raw ≡ some (pos r.id)
      → revoke_token (some u) raw w2 ≡ (no_body 204, w3)
      → later.schedule ≡ []
      → later.db.tokens ≡ w3.db.tokens
      → attach {X = Nothing} sha256 (bearing (bearer_prefix ++ r.token)) later ≡ (go none, later)
  create_token-revoke_token raw w2 w3 later b l alone e alone2 same2 is_id revoked alone3 same3 =
      let m = handed_out sha256 random u body w r w' b l alone e in
      let i = insert_pat-Inserted _ w.now w.db m.inserted in
      attach_nobody {X = Nothing} sha256 r.token (bearer_prefix ++ r.token) later alone3 m.carried (
        Inserted-revoked i w2.now w2.db w3.db later.now later.db same2
          (rw m.same_id at (revoke_token-left u raw r.id w2 w3 alone2 is_id revoked)) same3)
