-- ===== src/Login/Upsert.antt =====
-- internal/auth/oauth/provider.go: what the identity provider claims of a user, and upsertUser of
-- internal/handlers/auth/google.go, which finds or creates that user.
use diarion_core.Prelude.{Bool, Option, none, some, [], ◌∷◌, Bytes}
use diarion_core.Prelude.Result.{Result, ok, err}
use diarion_core.Db.Models.{User}
use diarion_core.Db.Users.{
  InsertUserParams, get_user_by_google_sub, insert_user, update_user_profile,
}
use diarion_core.Db.World.{DbError, no_rows, Handler, call, pure, ◌>>=◌}

pub record Claims : Type 0 where
  pub sub : Bytes
  pub email : Bytes
  pub email_verified : Bool
  pub name : Bytes
  pub picture : Bytes

abbrev pub or_else : Bytes → Bytes → Bytes
or_else [] other = other
or_else (c ∷ s) other = c ∷ s

abbrev pub picture_or : Bytes → Option Bytes → Option Bytes
picture_or [] other = other
picture_or (c ∷ s) other = some (c ∷ s)

abbrev pub user_params : Claims → InsertUserParams
user_params c = record {
  google_sub = c.sub;
  email = c.email;
  email_verified = c.email_verified;
  display_name = or_else c.name c.email;
  avatar_url = picture_or c.picture none;
}

module _ {X : Type 0} where
  unfoldable pub upsert_found : Claims → Result DbError User → Handler X (Result DbError User)
  upsert_found c (ok existing) = call (
      update_user_profile existing.id (or_else c.name existing.display_name)
        (picture_or c.picture existing.avatar_url))
  upsert_found c (err no_rows) = call (insert_user (user_params c))
  upsert_found c (err e) = pure (err e)

  unfoldable pub upsert_user : Claims → Handler X (Result DbError User)
  upsert_user c = call (get_user_by_google_sub c.sub) >>= upsert_found c
