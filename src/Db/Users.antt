-- ===== src/Db/Users.antt =====
-- internal/db/dbgen/users.sql.go.
use diarion_core.Prelude.{
  ℕ, suc, ◌+◌, ◌-◌, Bool, ◌&&◌, Option, none, some, [], ◌∷◌, ◌++◌, ◌==◌, if◌then◌else◌, any, Bytes,
  bytes_eq, codes,
}
use diarion_core.Prelude.Result.{Result, ok, err, or_err}
use diarion_core.Db.Models.{Db, User}
use diarion_core.Db.Table.{first_where, update_where, delete_where, count_where}
use diarion_core.Db.Agents.{is_some, is_expired, thirty_days, one_second}
use diarion_core.Db.Agents.Deletes.{user_expired}
use diarion_core.Db.World.{
  Query, DbError, no_rows, fk_violation, unique_violation, users_google_sub, users_email,
}

unfoldable pub get_user_by_id : ℕ → Query User
get_user_by_id id now db = (or_err (first_where (λ u. u.id == id) db.users) no_rows, db)

unfoldable pub get_user_by_google_sub : Bytes → Query User
get_user_by_google_sub sub now db =
    (or_err (first_where (λ u. bytes_eq u.google_sub sub) db.users) no_rows, db)

unfoldable pub get_user_by_email : Bytes → Query User
get_user_by_email email now db =
    (or_err (first_where (λ u. bytes_eq u.email email) db.users) no_rows, db)

pub record InsertUserParams : Type 0 where
  pub google_sub : Bytes
  pub email : Bytes
  pub email_verified : Bool
  pub display_name : Bytes
  pub avatar_url : Option Bytes

unfoldable pub insert_user : InsertUserParams → Query User
insert_user arg now db =
    let row : User = record {
      id = db.next_user;
      google_sub = arg.google_sub;
      email = arg.email;
      email_verified = arg.email_verified;
      display_name = arg.display_name;
      avatar_url = arg.avatar_url;
      tier = codes "free";
      suspended_at = none;
      deleted_at = none;
      hard_delete_at = none;
      created_at = now;
      updated_at = now;
    } in
    let drawn : Db = record db { next_user = suc db.next_user } in
    if any (λ u. bytes_eq u.google_sub arg.google_sub) db.users
    then (err (unique_violation users_google_sub), drawn)
    else if any (λ u. bytes_eq u.email arg.email) db.users
    then (err (unique_violation users_email), drawn)
    else (ok row, record drawn { users = db.users ++ row ∷ [] })

unfoldable pub update_user_profile : ℕ → Bytes → Option Bytes → Query User
update_user_profile id display avatar now db =
    let users' =
      update_where (λ u. u.id == id)
        (λ u. record u { display_name = display; avatar_url = avatar; updated_at = now })
        db.users in
    (or_err (first_where (λ u. u.id == id) users') no_rows, record db { users = users' })

-- An UPDATE of the users with the given id.
abbrev update_users : (User → Bool) → (User → User) → Db → Result DbError (Unit {0}) × Db
update_users p f db = (ok tt, record db { users = update_where p f db.users })

unfoldable pub mark_user_deleted : ℕ → Query (Unit {0})
mark_user_deleted id now =
    update_users (λ u. u.id == id)
      (λ u. record u {
        deleted_at = some now;
        hard_delete_at = some (now + thirty_days);
        updated_at = now;
      })

unfoldable pub restore_user : ℕ → Query (Unit {0})
restore_user id now =
    update_users (λ u. u.id == id)
      (λ u. record u { deleted_at = none; hard_delete_at = none; updated_at = now })

-- Time does not go below zero here, where the epoch is far back.
unfoldable pub force_expire_binned_user : ℕ → Query (Unit {0})
force_expire_binned_user id now =
    update_users (λ u. u.id == id && is_some u.deleted_at)
      (λ u. record u { hard_delete_at = some (now - one_second) })

-- sessions and personal_access_tokens follow their user (CASCADE); an agent of the user (RESTRICT)
-- refuses all.
unfoldable pub purge_expired_users : Query ℕ
purge_expired_users now db =
    if any (λ a. user_expired now db.users a.owner_id) db.agents then (err fk_violation, db) else (
      ok (count_where (λ u. is_expired now u.hard_delete_at) db.users),
      record db {
        users = delete_where (λ u. is_expired now u.hard_delete_at) db.users;
        sessions = delete_where (λ s. user_expired now db.users s.user_id) db.sessions;
        tokens = delete_where (λ t. user_expired now db.users t.user_id) db.tokens;
      },
    )
