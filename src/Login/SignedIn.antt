-- ===== src/Login/SignedIn.antt =====
-- What a completed login has gone through, with other requests and failures at any moment.
use diarion_core.Prelude.{
  ℕ, ◌+◌, any, ◌≡◌, refl, inl, inr, Option, none, some, arith, Bytes, ◌==◌, bytes_eq, bytes_eq→eq,
  Bool-cases,
}
use diarion_core.Prelude.Result.{Result, ok, err}
use diarion_core.Stdlib.Hex
use diarion_core.Db.Models.{Db, Time, User, Session}
use diarion_core.Db.Table.{first_where, first_where-holds, update_where}
use diarion_core.Db.Users.{get_user_by_google_sub, insert_user, update_user_profile}
use diarion_core.Db.Sessions.{insert_session}
use diarion_core.Db.World.{
  World, DbError, no_rows, fk_violation, check_violation, connection, unique_violation, Reply, go,
  call, seen, read-eq-ok,
}
use diarion_core.Db.World.Ran.{Runs, Ran, call-Runs, call-Ran}
use diarion_core.Db.Outcome.{Outcome, call_step, call_last}
use diarion_core.Session.{SessionError, SetCookie, set, ttl, issued}
use diarion_core.Session as Sessions
use diarion_core.Entries.Accepted.{Refuses}
use diarion_core.Login.Upsert.{Claims, user_params, or_else, picture_or, upsert_found, upsert_user}

-- The user that claims lead to: the one that the statement run in `w` found under their subject,
-- refreshed by the next statement, or a new one, when it found none.
pub data Upserted (c : Claims) (user : User) (w w' : World) : Type 0 where
  refreshed :
      (existing : User) (w1 : World)
      → Ran (get_user_by_google_sub c.sub) w existing w1
      → Ran
          (update_user_profile existing.id
            (or_else c.name existing.display_name)
            (picture_or c.picture existing.avatar_url))
          w1
          user
          w'
      → existing.google_sub ≡ c.sub
      → user.id ≡ existing.id
      → Upserted c user w w'
  registered :
      (w1 : World)
      → Runs (get_user_by_google_sub c.sub) w (err no_rows) w1
      → Ran (insert_user (user_params c)) w1 user w'
      → user.google_sub ≡ c.sub
      → Upserted c user w w'

get_by_sub-sub :
    (sub : Bytes) (now : Time) (db : Db) {u : User} {db' : Db}
    → get_user_by_google_sub sub now db ≡ (ok u, db')
    → u.google_sub ≡ sub
unfolding get_user_by_google_sub
get_by_sub-sub sub now db h =
    let (hit, _) = read-eq-ok (first_where (λ u. bytes_eq u.google_sub sub) db.users) db h in
    bytes_eq→eq _ _ (first_where-holds (λ u. bytes_eq u.google_sub sub) db.users _ hit)

update_profile-id :
    (id : ℕ) (display : Bytes) (avatar : Option Bytes) (now : Time) (db : Db) {u : User} {db' : Db}
    → update_user_profile id display avatar now db ≡ (ok u, db')
    → u.id ≡ id
unfolding update_user_profile
update_profile-id id display avatar now db h =
    let (hit, _) =
      read-eq-ok (first_where (λ u. u.id == id) (update_where (λ u. u.id == id) _ db.users)) _ h in
    let e = first_where-holds (λ u. u.id == id) (update_where (λ u. u.id == id) _ db.users) _ hit in
    ground (arith, e)

insert_user-sub :
    (c : Claims) (now : Time) (db : Db) {u : User} {db' : Db}
    → insert_user (user_params c) now db ≡ (ok u, db')
    → u.google_sub ≡ c.sub
unfolding insert_user
insert_user-sub c now db h = elim (Bool-cases (any (λ u. bytes_eq u.google_sub c.sub) db.users)) [
  | inl s ↦ let k = rw s at h in cc
  | inr s ↦ elim (Bool-cases (any (λ u. bytes_eq u.email c.email) db.users)) [
    | inl m ↦ let k = rw (s, m) at h in cc
    | inr m ↦ let k = rw (s, m) at h in cc
  ]
]

-- A session of the user with a random token, stored by the statement run in `w`, and the cookie
-- with its token.
pub record Opened (random : Option Bytes) (user : ℕ) (s : Session) (c : SetCookie) (w w' : World)
    : Type 0 where
  pub buf : Bytes
  pub drawn : random ≡ some buf
  pub stored : Ran (insert_session (Hex.encode buf) user (w.now + ttl)) w s w'
  pub sent : c ≡ set (Hex.encode buf) (w.now + ttl)

module _ (X : Type 0) where
  upsert_found-Upserted :
      (c : Claims) (r : Result DbError User) (w w1 : World)
      → call {X = Reply X} (get_user_by_google_sub c.sub) w ≡ (go r, w1)
      → Outcome
          (λ r' w'. (u : User) → r' ≡ ok u → Upserted c u w w')
          (Refuses X)
          (upsert_found {X = Reply X} c r w1)
  unfolding upsert_found
  upsert_found-Upserted c (ok existing) w w1 h =
      let q =
        update_user_profile existing.id (or_else c.name existing.display_name)
          (picture_or c.picture existing.avatar_url) in
      call_last _ (Refuses X) q w1 (λ r w2 h2 u e.
        let f = call-Ran {X = Reply X} (get_user_by_google_sub c.sub) w h in
        let g = call-Ran {X = Reply X} q w1 (rw e at h2) in
        refreshed existing w1 f g (get_by_sub-sub c.sub w1.now (seen w) f.ran)
          (update_profile-id existing.id _ _ w2.now (seen w1) g.ran))
  upsert_found-Upserted c (err no_rows) w w1 h =
      call_last _ (Refuses X) (insert_user (user_params c)) w1 (λ r w2 h2 u e.
        let g = call-Ran {X = Reply X} (insert_user (user_params c)) w1 (rw e at h2) in
        registered w1 (call-Runs {X = Reply X} (get_user_by_google_sub c.sub) w h) g
          (insert_user-sub c w2.now (seen w1) g.ran))
  upsert_found-Upserted c (err fk_violation) w w1 h = λ u e. cc
  upsert_found-Upserted c (err check_violation) w w1 h = λ u e. cc
  upsert_found-Upserted c (err connection) w w1 h = λ u e. cc
  upsert_found-Upserted c (err (unique_violation k)) w w1 h = λ u e. cc

  pub upsert_user-Upserted :
      (c : Claims) (w : World)
      → Outcome
          (λ r' w'. (u : User) → r' ≡ ok u → Upserted c u w w')
          (Refuses X)
          (upsert_user {X = Reply X} c w)
  unfolding upsert_user
  upsert_user-Upserted c w =
      call_step _ (Refuses X) (get_user_by_google_sub c.sub) (upsert_found c) w
        (λ r w1 h. upsert_found-Upserted c r w w1 h)

  pub issue-Opened :
      (random : Option Bytes) (user : ℕ) (w : World)
      → Outcome
          (λ r' w'. (p : Session × SetCookie) → r' ≡ ok p → Opened random user p.0 p.1 w w')
          (Refuses X)
          (Sessions.issue {X = Reply X} random user w)
  unfolding Sessions.issue
  issue-Opened none user w = λ p e. cc
  issue-Opened (some buf) user w =
      let q = insert_session (Hex.encode buf) user (w.now + ttl) in
      call_step _ (Refuses X) q _ w (λ r w1 h p e. opened r w1 h p e)
    where
      opened :
          (r : Result DbError Session) (w1 : World)
          → call {X = Reply X} (insert_session (Hex.encode buf) user (w.now + ttl)) w ≡ (go r, w1)
          → (p : Session × SetCookie) → issued (Hex.encode buf) (w.now + ttl) r ≡ ok p
          → Opened (some buf) user p.0 p.1 w w1
      opened (err x) w1 h p e = cc
      opened (ok s) w1 h (s', c) e = record {
        buf = buf;
        drawn = refl;
        stored = call-Ran {X = Reply X} (insert_session (Hex.encode buf) user (w.now + ttl)) w cc;
        sent = cc;
      }
