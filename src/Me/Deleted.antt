-- ===== src/Me/Deleted.antt =====
-- What the deletion of an account leaves.
use diarion_core.Prelude.{
  ℕ, ◌+◌, ◌≡◌, ◌≢◌, refl, Bool, true, false, not, ◌&&◌, ◌||◌, Option, none, some, [], arith, ◌==◌,
  All, Bytes,
}
use diarion_core.Prelude.Result.{ok}
use diarion_core.Db.Models.{Db, Time, User, Agent}
use diarion_core.Db.Table.{
  first_where-All, update_where, update_where-All, delete_where, delete_where-All, select_where,
  select_where-update_where_none,
}
use diarion_core.Db.Agents.{is_some, coalesce, soft_delete_agents_by_user, thirty_days}
use diarion_core.Db.Users.{mark_user_deleted}
use diarion_core.Db.Sessions.{delete_all_sessions_for_user}
use diarion_core.Db.World.{World, Reply, json, Nothing, go, call-runs}
use diarion_core.Session.{clear, revoke_all_for_user}
use diarion_core.Middleware.{AuthUser, Credentials, is_barred, attach}
use diarion_core.Middleware.Calm.{attach-MayAct}
use diarion_core.Me.{DeleteResponse, soft_delete_user_tx, delete}

abbrev marked : Time → User → User
marked now u = record u {
  deleted_at = some now;
  hard_delete_at = some (now + thirty_days);
  updated_at = now;
}

abbrev owned_live : ℕ → Agent → Bool
owned_live owner a = a.owner_id == owner && not (is_some a.removed_at)

-- The answer to a deletion and the tables after it, with nobody else active.
record Left (user : ℕ) (w : World) (reply : Reply DeleteResponse) (w' : World) : Type 0 where
  answer :
      reply
      ≡ json 202
          (record { deleted = true; hard_delete_at = w.now + thirty_days; cookie = some clear })
  users_left : w'.db.users ≡ update_where (λ v. v.id == user) (marked w.now) w.db.users
  agents_left : w'.db.agents ≡ (soft_delete_agents_by_user user w.now w.db).1.agents
  sessions_left : w'.db.sessions ≡ delete_where (λ s. s.user_id == user) w.db.sessions

delete-Left :
    (u : AuthUser) (w w' : World) (reply : Reply DeleteResponse)
    → w.schedule ≡ []
    → delete (some u) w ≡ (reply, w')
    → Left u.user.id w reply w'
unfolding delete soft_delete_user_tx mark_user_deleted soft_delete_agents_by_user
    revoke_all_for_user delete_all_sessions_for_user
delete-Left u w w' reply alone h =
    let one =
      call-runs {X = Reply DeleteResponse} (soft_delete_user_tx u.user.id) w (ok tt) _ alone refl in
    let two =
      call-runs {X = Reply DeleteResponse} (delete_all_sessions_for_user u.user.id)
        (record w { db = (soft_delete_user_tx u.user.id w.now w.db).1 }) (ok tt) _ alone refl in
    let k = rw (one, two) at h in
    record { answer = cc; users_left = cc; agents_left = cc; sessions_left = cc }

marked_barred : (o : Option Time) → (is_some o || true) ≡ true
marked_barred none = refl
marked_barred (some t) = refl

coalesce_live : (o : Option Time) (now : Time) → is_some (coalesce o now) ≡ true
coalesce_live none now = refl
coalesce_live (some t) now = refl

no_live_agents :
    (owner : ℕ) (now : Time) (db : Db)
    → select_where (owned_live owner) (soft_delete_agents_by_user owner now db).1.agents ≡ []
unfolding soft_delete_agents_by_user
no_live_agents owner now db =
    select_where-update_where_none (owned_live owner) _ db.agents
      (λ a. ground (arith, coalesce_live a.removed_at now))

-- The user is out.
pub record LockedOut (user : ℕ) (deadline : Time) (reply : Reply DeleteResponse) (after : Db)
    : Type 0 where
  pub answer :
      reply ≡ json 202 (record { deleted = true; hard_delete_at = deadline; cookie = some clear })
  pub no_sessions : All (λ s. s.user_id == user ≡ false) after.sessions
  pub no_agents : select_where (owned_live user) after.agents ≡ []
  pub marked_users : All (λ v. v.id ≡ user → v.hard_delete_at ≡ some deadline) after.users
  pub not_attached :
      (sha256 : Bytes → Bytes) (c : Credentials) (later w2 : World) (a : AuthUser)
      → later.schedule ≡ []
      → later.db.users ≡ after.users
      → attach {X = Nothing} sha256 c later ≡ (go (some a), w2)
      → a.user.id ≢ user

-- Delete of the account of the user of a request, with nobody else active, answers 202 with the time
-- thirty days on, which every row of that user now has as its deadline; no session of the user and
-- no live agent is left, and as long as the users stay so, the middleware attaches that user to no
-- request, whatever credentials it carries.
pub delete-LockedOut :
    (u : AuthUser) (w w' : World) (reply : Reply DeleteResponse)
    → w.schedule ≡ []
    → delete (some u) w ≡ (reply, w')
    → LockedOut u.user.id (w.now + thirty_days) reply w'.db
delete-LockedOut u w w' reply alone h =
    let m = delete-Left u w w' reply alone h in
    let barred : All (λ v. v.id ≡ u.user.id → is_barred v ≡ true) w'.db.users = rw m.users_left (
      update_where-All _ (λ v. v.id == u.user.id) (marked w.now) w.db.users
        (λ v e same. marked_barred v.suspended_at) (λ v e same. ground arith)) in
    record {
      answer = m.answer;
      no_sessions = rw m.sessions_left (delete_where-All _ w.db.sessions);
      no_agents = rw m.agents_left (no_live_agents u.user.id w.now w.db);
      marked_users = rw m.users_left (
          update_where-All _ (λ v. v.id == u.user.id) (marked w.now) w.db.users (λ v e same. refl)
            (λ v e same. ground arith));
      not_attached = λ sha256 c later w2 a alone' same at. λ mine.
          let may = attach-MayAct Nothing later sha256 c a w2 alone' at in
          let is_barred_user =
            first_where-All (λ v. v.id ≡ u.user.id → is_barred v ≡ true) (λ v. v.id == may.id)
              w'.db.users a.user barred (rw same at may.found) mine in
          cc (may.free, is_barred_user);
    }
