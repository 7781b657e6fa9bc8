-- ===== src/Db/Tokens.antt =====
-- internal/db/dbgen/personal_access_tokens.sql.go.
pub mod Inserted
use diarion_core.Prelude.{
  ℕ, suc, Bool, true, not, ◌&&◌, Option, none, some, List, [], ◌∷◌, ◌++◌, ltb, ◌==◌, if◌then◌else◌,
  any, Bytes, bytes_eq,
}
use diarion_core.Prelude.Result.{ok, err, or_err}
use diarion_core.Db.Models.{Db, Time, PersonalAccessToken}
use diarion_core.Db.Table.{select_where, first_where, update_where, order_by}
use diarion_core.Db.Agents.{is_some}
use diarion_core.Db.World.{Query, no_rows, fk_violation, unique_violation, pat_token_hash}

pub record InsertPatParams : Type 0 where
  pub user_id : ℕ
  pub token_hash : Bytes
  pub name : Bytes
  pub expires_at : Option Time

unfoldable pub insert_pat : InsertPatParams → Query PersonalAccessToken
insert_pat arg now db =
    let row : PersonalAccessToken = record {
      id = db.next_token;
      user_id = arg.user_id;
      token_hash = arg.token_hash;
      name = arg.name;
      last_used_at = none;
      expires_at = arg.expires_at;
      revoked_at = none;
      created_at = now;
    } in
    let drawn : Db = record db { next_token = suc db.next_token } in
    if any (λ t. bytes_eq t.token_hash arg.token_hash) db.tokens
    then (err (unique_violation pat_token_hash), drawn)
    else if not (any (λ u. u.id == arg.user_id) db.users)
    then (err fk_violation, drawn)
    else (ok row, record drawn { tokens = db.tokens ++ row ∷ [] })

-- `expires_at IS NULL OR expires_at > NOW()`.
abbrev pub not_over : Time → Option Time → Bool
not_over now (some t) = ltb now t
not_over now none = true

unfoldable pub get_pat_by_hash : Bytes → Query PersonalAccessToken
get_pat_by_hash hash now db = (
  or_err
      (first_where
        (λ t. bytes_eq t.token_hash hash && not (is_some t.revoked_at) && not_over now t.expires_at)
        db.tokens)
      no_rows,
  db,
)

unfoldable pub list_pats_for_user : ℕ → Query (List PersonalAccessToken)
list_pats_for_user user now db = (
  ok (
      order_by (λ s t. ltb t.created_at s.created_at)
        (select_where (λ t. t.user_id == user && not (is_some t.revoked_at)) db.tokens)),
  db,
)

unfoldable pub touch_pat : ℕ → Query (Unit {0})
touch_pat id now db = (
  ok tt,
  record db {
    tokens = update_where (λ t. t.id == id) (λ t. record t { last_used_at = some now }) db.tokens;
  },
)

unfoldable pub revoke_pat : ℕ → ℕ → Query (Unit {0})
revoke_pat id user now db = (
  ok tt,
  record db {
    tokens =
        update_where (λ t. t.id == id && t.user_id == user)
          (λ t. record t { revoked_at = some now }) db.tokens;
  },
)
