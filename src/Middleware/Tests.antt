-- ===== src/Middleware/Tests.antt =====
-- Ann with a session cookie.
use diarion_core.Prelude.{ℕ, ◌≡◌, refl, false, true, some, none, [], ◌∷◌, codes, bytes_eq}
use diarion_core.Stdlib.Strings.{trim_space, trim_by, space_prefix, space_suffix}
use diarion_core.Db.Models.{Db, User, Session, empty_db}
use diarion_core.Db.Table.{first_where, update_where}
use diarion_core.Db.Users.{get_user_by_id}
use diarion_core.Db.Sessions.{get_session_by_token, touch_session}
use diarion_core.Db.World.{call, go, quiet}
use diarion_core.Session.{lookup}
use diarion_core.Middleware.{AuthUser, Credentials, resolve_from_session, attach}
use diarion_core.Middleware.Attached.{Attached, attach-Attached}

abbrev ann : User
ann = record {
  id = 1;
  google_sub = codes "g-1";
  email = codes "ann@e.com";
  email_verified = true;
  display_name = codes "Ann";
  avatar_url = none;
  tier = codes "free";
  suspended_at = none;
  deleted_at = none;
  hard_delete_at = none;
  created_at = 10;
  updated_at = 10;
}

abbrev logged_in : Session
logged_in = record {
  id = 7;
  session_token = codes "abc";
  user_id = 1;
  expires_at = 500;
  last_seen_at = none;
  created_at = 20;
}

abbrev tables : Db
tables = record empty_db { users = ann ∷ []; sessions = logged_in ∷ [] }

abbrev credentials : Credentials
credentials = record { cookie = some (codes " abc"); authorization = [] }

abbrev as_ann : AuthUser
as_ann = record { user = ann; via_pat = false }

attached_ann :
    attach {X = ℕ} (λ s. s) credentials (quiet 100 tables)
    ≡ (go (some as_ann), (attach {X = ℕ} (λ s. s) credentials (quiet 100 tables)).1)
unfolding attach resolve_from_session lookup trim_space trim_by space_prefix space_suffix call
    get_session_by_token touch_session get_user_by_id first_where update_where bytes_eq
attached_ann = refl

attach-Attached_example : Attached ℕ (λ s. s) credentials (quiet 100 tables) as_ann
attach-Attached_example =
    attach-Attached ℕ (λ s. s) credentials (quiet 100 tables) as_ann
      (attach {X = ℕ} (λ s. s) credentials (quiet 100 tables)).1 attached_ann
