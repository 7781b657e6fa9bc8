-- ===== src/Middleware/Calm.antt =====
-- Whom the middleware can attach when nobody else is active: users who may act, as the table has them.
use diarion_core.Prelude.{
  ℕ, ◌≡◌, refl, sym, ap, ◌∙◌, false, Option, none, some, [], ◌∷◌, ◌==◌, Bytes, Bool-cases, inl, inr,
  subst,
}
use diarion_core.Prelude.Result.{Result, ok, err}
use diarion_core.Stdlib.Strings.{trim_space}
use diarion_core.Db.Models.{Db, Time, User, Session, PersonalAccessToken}
use diarion_core.Db.Table.{first_where}
use diarion_core.Db.Users.{get_user_by_id}
use diarion_core.Db.Sessions.{get_session_by_token, touch_session}
use diarion_core.Db.Tokens.{get_pat_by_hash, touch_pat}
use diarion_core.Db.World.{World, Query, DbError, go, call, call-alone, read-eq-ok}
use diarion_core.Db.Outcome.{Outcome, bind_step, call_step}
use diarion_core.Session.{touched, lookup_token, lookup}
use diarion_core.Pat.{parse_from_header, hash}
use diarion_core.Middleware.{
  AuthUser, Credentials, is_barred, session_user, from_session, resolve_from_session, token_user,
  from_token, from_header, resolve_from_pat, or_token, attach,
}

-- Still nobody else is active, and the users are those of `w`.
pub record Calm (w w' : World) : Type 0 where
  pub alone : w'.schedule ≡ []
  pub users_same : w'.db.users ≡ w.db.users

-- A row of the table of users that may act.
pub record MayAct (w : World) (u : User) : Type 0 where
  pub id : ℕ
  pub found : first_where (λ v. v.id == id) w.db.users ≡ some u
  pub free : is_barred u ≡ false

abbrev Fits : World → Option AuthUser → World → Type 0
Fits w none w' = Calm w w'
Fits w (some a) w' = Calm w w' × MayAct w a.user

-- Nothing here returns early.
abbrev Never : {X : Type 0} → X → World → Type 0
Never x w = Unit {0}

abbrev KeepsUsers : {A : Type 0} → Query A → Type 0
KeepsUsers q = (now : Time) (db : Db) → (q now db).1.users ≡ db.users

module _ (X : Type 0) (w : World) where
  call-Calm :
      {A : Type 0} (q : Query A) (w1 : World) {r : Result DbError A} {w2 : World}
      → KeepsUsers q
      → Calm w w1
      → call {X = X} q w1 ≡ (go r, w2)
      → Calm w w2
  call-Calm q w1 k c h =
      let (ran, _, alone) = call-alone {X = X} q w1 c.alone h in
      record {
        alone = alone ∙ c.alone;
        users_same = sym (ap (λ p. p.1.users) ran) ∙ k w1.now w1.db ∙ c.users_same;
      }

  get_user-MayAct :
      (id : ℕ) (w1 w2 : World) (u : User)
      → Calm w w1
      → call {X = X} (get_user_by_id id) w1 ≡ (go (ok u), w2)
      → is_barred u ≡ false
      → MayAct w u
  unfolding get_user_by_id
  get_user-MayAct id w1 w2 u c h free =
      let (ran, _, _) = call-alone {X = X} (get_user_by_id id) w1 c.alone h in
      let (hit, _) = read-eq-ok (first_where (λ v. v.id == id) w1.db.users) w1.db ran in
      record { id = id; found = rw c.users_same at hit; free = free }

  get_user-KeepsUsers : (id : ℕ) → KeepsUsers (get_user_by_id id)
  unfolding get_user_by_id
  get_user-KeepsUsers id now db = refl

  session_user-Fits :
      (id : ℕ) (w1 w2 : World) (r : Result DbError User)
      → Calm w w1
      → call {X = X} (get_user_by_id id) w1 ≡ (go r, w2)
      → Outcome (Fits w) Never (session_user {X = X} r w2)
  session_user-Fits id w1 w2 (err e) c h =
      call-Calm (get_user_by_id id) w1 (get_user-KeepsUsers id) c h
  session_user-Fits id w1 w2 (ok u) c h =
      let c2 = call-Calm (get_user_by_id id) w1 (get_user-KeepsUsers id) c h in
      elim (Bool-cases (is_barred u)) [
        | inl b ↦ rw b c2
        | inr b ↦ rw b (c2, get_user-MayAct id w1 w2 u c h b)
      ]

  from_session-Fits :
      (o : Option Session) (w1 : World)
      → Calm w w1
      → Outcome (Fits w) Never (from_session {X = X} o w1)
  from_session-Fits none w1 c = c
  from_session-Fits (some s) w1 c =
      call_step _ Never (get_user_by_id s.user_id) session_user w1
        (λ r w2 h. session_user-Fits s.user_id w1 w2 r c h)

  touched-Calm :
      (r : Result DbError Session) (w1 : World)
      → Calm w w1
      → Outcome (λ o w'. Calm w w') Never (touched {X = X} r w1)
  unfolding touch_session
  touched-Calm (err e) w1 c = c
  touched-Calm (ok s) w1 c =
      call_step _ Never (touch_session s.id) _ w1
        (λ r w2 h. call-Calm (touch_session s.id) w1 (λ now db. refl) c h)

  lookup-Calm :
      (cookie : Option Bytes) (w1 : World)
      → Calm w w1
      → Outcome (λ o w'. Calm w w') Never (lookup {X = X} cookie w1)
  unfolding lookup get_session_by_token
  lookup-Calm none w1 c = c
  lookup-Calm (some value) w1 c = by_token (trim_space value)
    where
      by_token : (token : Bytes) → Outcome (λ o w'. Calm w w') Never (lookup_token {X = X} token w1)
      by_token [] = c
      by_token (b ∷ s) = call_step _ Never (get_session_by_token (b ∷ s)) touched w1 (λ r w2 h.
          touched-Calm r w2 (call-Calm (get_session_by_token (b ∷ s)) w1 (λ now db. refl) c h))

  token_user-Fits :
      (row : PersonalAccessToken) (w1 w2 : World) (r : Result DbError User)
      → Calm w w1
      → call {X = X} (get_user_by_id row.user_id) w1 ≡ (go r, w2)
      → Outcome (Fits w) Never (token_user {X = X} row r w2)
  unfolding touch_pat
  token_user-Fits row w1 w2 (err e) c h =
      call-Calm (get_user_by_id row.user_id) w1 (get_user-KeepsUsers row.user_id) c h
  token_user-Fits row w1 w2 (ok u) c h =
      let c2 = call-Calm (get_user_by_id row.user_id) w1 (get_user-KeepsUsers row.user_id) c h in
      elim (Bool-cases (is_barred u)) [
        | inl b ↦ rw b c2
        | inr b ↦ rw b (
            call_step _ Never (touch_pat row.id) _ w2 (λ t w3 h3. (
              call-Calm (touch_pat row.id) w2 (λ now db. refl) c2 h3,
              get_user-MayAct row.user_id w1 w2 u c h b,
            )))
      ]

  from_token-Fits :
      (r : Result DbError PersonalAccessToken) (w1 : World)
      → Calm w w1
      → Outcome (Fits w) Never (from_token {X = X} r w1)
  from_token-Fits (err e) w1 c = c
  from_token-Fits (ok row) w1 c =
      call_step _ Never (get_user_by_id row.user_id) (token_user row) w1
        (λ r w2 h. token_user-Fits row w1 w2 r c h)

  from_header-Fits :
      (sha256 : Bytes → Bytes) (o : Option Bytes) (w1 : World)
      → Calm w w1
      → Outcome (Fits w) Never (from_header {X = X} sha256 o w1)
  unfolding get_pat_by_hash
  from_header-Fits sha256 none w1 c = c
  from_header-Fits sha256 (some plain) w1 c =
      call_step _ Never (get_pat_by_hash (hash sha256 plain)) from_token w1 (λ r w2 h.
        from_token-Fits r w2
          (call-Calm (get_pat_by_hash (hash sha256 plain)) w1 (λ now db. refl) c h))

  or_token-Fits :
      (sha256 : Bytes → Bytes) (c : Credentials) (o : Option AuthUser) (w1 : World)
      → Fits w o w1
      → Outcome (Fits w) Never (or_token {X = X} sha256 c o w1)
  unfolding resolve_from_pat
  or_token-Fits sha256 c none w1 f =
      from_header-Fits sha256 (parse_from_header c.authorization) w1 f
  or_token-Fits sha256 c (some u) w1 f = f

  attach-Fits :
      (sha256 : Bytes → Bytes) (c : Credentials)
      → w.schedule ≡ []
      → Outcome (Fits w) Never (attach {X = X} sha256 c w)
  unfolding attach resolve_from_session
  attach-Fits sha256 c alone =
      let start : Calm w w = record { alone = alone; users_same = refl } in
      bind_step _ Never (Fits w) (resolve_from_session c) (or_token sha256 c) w
        (bind_step _ Never (λ o w'. Calm w w') (lookup c.cookie) from_session w
          (lookup-Calm c.cookie w start) (λ o w1 calm. from_session-Fits o w1 calm))
        (λ o w1 f. or_token-Fits sha256 c o w1 f)

  pub attach-MayAct :
      (sha256 : Bytes → Bytes) (c : Credentials) (u : AuthUser) (w' : World)
      → w.schedule ≡ []
      → attach {X = X} sha256 c w ≡ (go (some u), w')
      → MayAct w u.user
  attach-MayAct sha256 c u w' alone h =
      (subst (Outcome (Fits w) Never) h (attach-Fits sha256 c alone)).1
