-- ===== src/Middleware/Alone.antt =====
-- What the middleware attaches when nobody else is active.
use diarion_core.Prelude.{◌≡◌, refl, true, false, none, some, [], ◌==◌, Bytes}
use diarion_core.Prelude.Result.{ok, err}
use diarion_core.Db.Models.{User, PersonalAccessToken}
use diarion_core.Db.Table.{first_where}
use diarion_core.Db.Users.{get_user_by_id}
use diarion_core.Db.Tokens.{get_pat_by_hash, touch_pat}
use diarion_core.Db.World.{World, no_rows, go, call, call-goes, call-runs}
use diarion_core.Session.{lookup}
use diarion_core.Pat.{parse_from_header, hash}
use diarion_core.Middleware.{Credentials, is_barred, resolve_from_session, resolve_from_pat, attach}

-- A request without a cookie.
abbrev pub bearing : Bytes → Credentials
bearing header = record { cookie = none; authorization = header }

module _ {X : Type 0} (sha256 : Bytes → Bytes) (plain : Bytes) (header : Bytes) (w : World)
    (alone : w.schedule ≡ []) (carried : parse_from_header header ≡ some plain) where
  -- A valid token of a user who may act.
  pub attach_token :
      (row : PersonalAccessToken) (u : User)
      → get_pat_by_hash (hash sha256 plain) w.now w.db ≡ (ok row, w.db)
      → first_where (λ v. v.id == row.user_id) w.db.users ≡ some u
      → is_barred u ≡ false
      → (w' : World) × (attach {X = X} sha256 (bearing header) w
          ≡ (go (some (record { user = u; via_pat = true })), w'))
  unfolding attach resolve_from_session lookup resolve_from_pat get_user_by_id
  attach_token row u found owner free =
      let one : call {X = X} (get_pat_by_hash (hash sha256 plain)) w ≡ (go (ok row), w) =
        call-runs _ w (ok row) w.db alone found in
      let two : call {X = X} (get_user_by_id row.user_id) w ≡ (go (ok u), w) =
        call-runs _ w (ok u) w.db alone (rw owner refl) in
      let (r, w', three) = call-goes {X = X} (touch_pat row.id) w in
      (w', rw (carried, one, two, free, three) refl)

  -- A token that is revoked, expired or unknown.
  pub attach_nobody :
      get_pat_by_hash (hash sha256 plain) w.now w.db ≡ (err no_rows, w.db)
      → attach {X = X} sha256 (bearing header) w ≡ (go none, w)
  unfolding attach resolve_from_session lookup resolve_from_pat
  attach_nobody missing =
      let one : call {X = X} (get_pat_by_hash (hash sha256 plain)) w ≡ (go (err no_rows), w) =
        call-runs _ w (err no_rows) w.db alone missing in
      rw (carried, one) refl
