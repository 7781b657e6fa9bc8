-- ===== src/Db/Sessions.antt =====
-- internal/db/dbgen/sessions.sql.go.
use diarion_core.Prelude.{
  ℕ, suc, not, ◌&&◌, none, some, [], ◌∷◌, ◌++◌, ltb, leb, ◌==◌, if◌then◌else◌, any, Bytes, bytes_eq,
}
use diarion_core.Prelude.Result.{ok, err, or_err}
use diarion_core.Db.Models.{Db, Time, Session}
use diarion_core.Db.Table.{first_where, update_where, delete_where, count_where}
use diarion_core.Db.World.{Query, no_rows, fk_violation, unique_violation, session_token_key}

unfoldable pub insert_session : Bytes → ℕ → Time → Query Session
insert_session token user expires now db =
    let row : Session = record {
      id = db.next_session;
      session_token = token;
      user_id = user;
      expires_at = expires;
      last_seen_at = none;
      created_at = now;
    } in
    let drawn : Db = record db { next_session = suc db.next_session } in
    if any (λ s. bytes_eq s.session_token token) db.sessions
    then (err (unique_violation session_token_key), drawn)
    else if not (any (λ u. u.id == user) db.users)
    then (err fk_violation, drawn)
    else (ok row, record drawn { sessions = db.sessions ++ row ∷ [] })

unfoldable pub get_session_by_token : Bytes → Query Session
get_session_by_token token now db = (
  or_err (first_where (λ s. bytes_eq s.session_token token && ltb now s.expires_at) db.sessions)
      no_rows,
  db,
)

unfoldable pub touch_session : ℕ → Query (Unit {0})
touch_session id now db = (
  ok tt,
  record db {
    sessions =
        update_where (λ s. s.id == id) (λ s. record s { last_seen_at = some now }) db.sessions;
  },
)

unfoldable pub delete_session : ℕ → Query (Unit {0})
delete_session id now db =
    (ok tt, record db { sessions = delete_where (λ s. s.id == id) db.sessions })

unfoldable pub delete_all_sessions_for_user : ℕ → Query (Unit {0})
delete_all_sessions_for_user user now db =
    (ok tt, record db { sessions = delete_where (λ s. s.user_id == user) db.sessions })

unfoldable pub delete_expired_sessions : Query ℕ
delete_expired_sessions now db = (
  ok (count_where (λ s. leb s.expires_at now) db.sessions),
  record db { sessions = delete_where (λ s. leb s.expires_at now) db.sessions },
)
