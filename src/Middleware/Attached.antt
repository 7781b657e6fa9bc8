-- ===== src/Middleware/Attached.antt =====
-- Who may be attached to a request.
use diarion_core.Prelude.{
  ℕ, ◌≡◌, refl, subst, true, false, not, ◌&&◌, ◌<◌, ltb, bytes_eq, Bool, arith, ◌||◌, Option, none,
  some, [], ◌∷◌, Bytes, Bool-cases, inl, inr,
}
use diarion_core.Prelude.Result.{Result, ok, err}
use diarion_core.Stdlib.Strings.{trim_space}
use diarion_core.Db.Models.{User, Session, PersonalAccessToken}
use diarion_core.Db.Agents.{is_some}
use diarion_core.Db.Table.{first_where, first_where-holds}
use diarion_core.Db.Tokens.{get_pat_by_hash, touch_pat, not_over}
use diarion_core.Db.Users.{get_user_by_id}
use diarion_core.Db.Sessions.{get_session_by_token, touch_session}
use diarion_core.Db.World.{World, DbError, Flow, go, stop, Handler, call, seen, read-eq-ok, ◌>>=◌}
use diarion_core.Db.World.Ran.{Runs, Ran, call-Runs, call-Ran}
use diarion_core.Db.Outcome.{Outcome, Outcome-map, bind_step, call_step}
use diarion_core.Session.{touched, lookup_token, lookup}
use diarion_core.Pat.{parse_from_header, hash}
use diarion_core.Middleware.{
  AuthUser, Credentials, is_barred, session_user, from_session, resolve_from_session, token_user,
  from_token, from_header, resolve_from_pat, or_token, attach,
}

-- The row of a user who may act, as the statement that is run in `w` found it.
pub record ActiveUser (id : ℕ) (user : User) (w : World) : Type 0 where
  pub after : World
  pub found : Ran (get_user_by_id id) w user after
  pub not_suspended : user.suspended_at ≡ none
  pub not_deleted : user.deleted_at ≡ none

-- A session that the statement run in `w` found for a token, before the one that touches it.
pub record LiveSession (token : Bytes) (s : Session) (w w' : World) : Type 0 where
  pub between : World
  pub found : Ran (get_session_by_token token) w s between
  pub unexpired : between.now < s.expires_at
  pub touched : Result DbError (Unit {0})
  pub touch_ran : Runs (touch_session s.id) between touched w'

-- A session that a cookie led to.
pub record OfCookie (cookie : Option Bytes) (w : World) (s : Session) (w' : World) : Type 0 where
  pub value : Bytes
  pub has_cookie : cookie ≡ some value
  pub live : LiveSession (trim_space value) s w w'

-- The credential that a user is attached for, where the request comes in `w`.
pub data Attached (X : Type 0) (sha256 : Bytes → Bytes) (c : Credentials) (w : World) (u : AuthUser)
    : Type 0 where
  by_session :
      (s : Session) (w1 : World)
      → OfCookie c.cookie w s w1
      → ActiveUser s.user_id u.user w1
      → u.via_pat ≡ false
      → Attached X sha256 c w u
  by_token :
      (plain : Bytes) (row : PersonalAccessToken) (w1 w2 : World)
      → resolve_from_session {X = X} c w ≡ (go none, w1)
      → parse_from_header c.authorization ≡ some plain
      → Ran (get_pat_by_hash (hash sha256 plain)) w1 row w2
      → (row.revoked_at ≡ none) × (not_over w2.now row.expires_at ≡ true)
      → ActiveUser row.user_id u.user w2
      → u.via_pat ≡ true
      → Attached X sha256 c w u

-- Nothing, or a value with the property.
abbrev IfSome : {A : Type 0} → (A → Type 0) → Option A → Type 0
IfSome P none = Unit {0}
IfSome P (some a) = P a

not_barred : (u : User) → is_barred u ≡ false → (u.suspended_at ≡ none) × (u.deleted_at ≡ none)
not_barred u h = (none_left u.suspended_at u.deleted_at h, none_right u.suspended_at u.deleted_at h)
  where
    none_left : {A : Type 0} (o p : Option A) → (is_some o || is_some p) ≡ false → o ≡ none
    none_left none p h = refl
    none_left (some a) p h = cc

    none_right : {A : Type 0} (o p : Option A) → (is_some o || is_some p) ≡ false → p ≡ none
    none_right none none h = refl
    none_right none (some a) h = cc
    none_right (some a) p h = cc

active :
    (id : ℕ) (w w' : World) (u : User) {X : Type 0}
    → call {X = X} (get_user_by_id id) w ≡ (go (ok u), w')
    → is_barred u ≡ false
    → ActiveUser id u w
active id w w' u {X} h b =
    let (s, d) = not_barred u b in
    record {
      after = w';
      found = call-Ran {X = X} (get_user_by_id id) w h;
      not_suspended = s;
      not_deleted = d;
    }

found-unexpired :
    (token : Bytes) (s : Session) (w w1 : World)
    → Ran (get_session_by_token token) w s w1
    → w1.now < s.expires_at
unfolding get_session_by_token
found-unexpired token s w w1 f =
    let p : Session → Bool = λ s. bytes_eq s.session_token token && ltb w1.now s.expires_at in
    let (hit, _) = read-eq-ok (first_where p (seen w).sessions) (seen w) f.ran in
    let e = first_where-holds p (seen w).sessions _ hit in ground (arith, e)

found-current :
    (hash : Bytes) (row : PersonalAccessToken) (w1 w2 : World)
    → Ran (get_pat_by_hash hash) w1 row w2
    → (row.revoked_at ≡ none) × (not_over w2.now row.expires_at ≡ true)
unfolding get_pat_by_hash
found-current hash row w1 w2 f =
    let p : PersonalAccessToken → Bool = λ t.
      bytes_eq t.token_hash hash && not (is_some t.revoked_at) && not_over w2.now t.expires_at in
    let (hit, _) = read-eq-ok (first_where p (seen w1).tokens) (seen w1) f.ran in
    let e = first_where-holds p (seen w1).tokens _ hit in
    (no_time row.revoked_at _ _ e, ground (arith, e))
  where
    no_time :
        {A : Type 0} (o : Option A) (a b : Bool) → (a && not (is_some o) && b) ≡ true → o ≡ none
    no_time none a b h = refl
    no_time (some x) a b h = ground (arith, h)

-- Nothing here returns early.
abbrev Never : {X : Type 0} → X → World → Type 0
Never x w = Unit {0}

-- A step whose equation the rest needs.
bind_eq_step :
    {X A B : Type 0} (Q : A → World → Type 0) (R : B → World → Type 0) (m : Handler X A)
    (f : A → Handler X B) (w : World)
    → Outcome Q Never (m w)
    → ((a : A) (w' : World) → m w ≡ (go a, w') → Q a w' → Outcome R Never (f a w'))
    → Outcome R Never ((m >>= f) w)
bind_eq_step {X} {A} {B} Q R m f w o k = from (m w) refl o
  where
    from : (r : Flow X A × World) → m w ≡ r → Outcome Q Never r → Outcome R Never ((m >>= f) w)
    from (go a, w') e o = rw e (k a w' e o)
    from (stop x, w') e o = rw e tt

module _ (X : Type 0) where
  touched-LiveSession :
      (token : Bytes) (r : Result DbError Session) (w w1 : World)
      → call {X = X} (get_session_by_token token) w ≡ (go r, w1)
      → Outcome (λ o w'. IfSome (λ s. LiveSession token s w w') o) Never (touched {X = X} r w1)
  touched-LiveSession token (err e) w w1 h = tt
  touched-LiveSession token (ok s) w w1 h = call_step _ Never (touch_session s.id) _ w1 (λ r w2 h2.
      let found = call-Ran {X = X} (get_session_by_token token) w h in
      record {
        between = w1;
        found = found;
        unexpired = found-unexpired token s w w1 found;
        touched = r;
        touch_ran = call-Runs {X = X} (touch_session s.id) w1 h2;
      })

  lookup_token-LiveSession :
      (token : Bytes) (w : World)
      → Outcome
          (λ o w'. IfSome (λ s. LiveSession token s w w') o)
          Never
          (lookup_token {X = X} token w)
  lookup_token-LiveSession [] w = tt
  lookup_token-LiveSession (c ∷ s) w =
      call_step _ Never (get_session_by_token (c ∷ s)) touched w
        (λ r w1 h. touched-LiveSession (c ∷ s) r w w1 h)

  session_user-ActiveUser :
      (id : ℕ) (r : Result DbError User) (w w1 : World)
      → call {X = X} (get_user_by_id id) w ≡ (go r, w1)
      → Outcome
          (λ o w'. IfSome (λ u. ActiveUser id u.user w × (u.via_pat ≡ false)) o)
          Never
          (session_user {X = X} r w1)
  session_user-ActiveUser id (err e) w w1 h = tt
  session_user-ActiveUser id (ok u) w w1 h = elim (Bool-cases (is_barred u)) [
    | inl b ↦ rw b tt
    | inr b ↦ rw b (active id w w1 u h b, refl)
  ]

  token_user-ActiveUser :
      (row : PersonalAccessToken) (r : Result DbError User) (w w1 : World)
      → call {X = X} (get_user_by_id row.user_id) w ≡ (go r, w1)
      → Outcome
          (λ o w'. IfSome (λ u. ActiveUser row.user_id u.user w × (u.via_pat ≡ true)) o)
          Never
          (token_user {X = X} row r w1)
  token_user-ActiveUser row (err e) w w1 h = tt
  token_user-ActiveUser row (ok u) w w1 h = elim (Bool-cases (is_barred u)) [
    | inl b ↦ rw b tt
    | inr b ↦ rw b (
        call_step _ Never (touch_pat row.id) _ w1
          (λ r w2 h2. (active row.user_id w w1 u h b, refl)))
  ]

  of_cookie :
      (value : Bytes) (w : World) (o : Option Session) (w' : World)
      → IfSome (λ s. LiveSession (trim_space value) s w w') o
      → IfSome (λ s. OfCookie (some value) w s w') o
  of_cookie value w none w' l = tt
  of_cookie value w (some s) w' l = record { value = value; has_cookie = refl; live = l }

  lookup-OfCookie :
      (cookie : Option Bytes) (w : World)
      → Outcome (λ o w'. IfSome (λ s. OfCookie cookie w s w') o) Never (lookup {X = X} cookie w)
  unfolding lookup
  lookup-OfCookie none w = tt
  lookup-OfCookie (some value) w =
      Outcome-map _ _ Never (lookup_token {X = X} (trim_space value) w) (of_cookie value w)
        (lookup_token-LiveSession (trim_space value) w)

  module _ (sha256 : Bytes → Bytes) (c : Credentials) (w : World) where
    by_session_of :
        (s : Session) (w1 : World)
        → OfCookie c.cookie w s w1
        → (o : Option AuthUser) (w' : World)
        → IfSome (λ u. ActiveUser s.user_id u.user w1 × (u.via_pat ≡ false)) o
        → IfSome (Attached X sha256 c w) o
    by_session_of s w1 l none w' a = tt
    by_session_of s w1 l (some u) w' (a, v) = by_session s w1 l a v

    from_session-Attached :
        (o : Option Session) (w1 : World)
        → IfSome (λ s. OfCookie c.cookie w s w1) o
        → Outcome (λ o w'. IfSome (Attached X sha256 c w) o) Never (from_session {X = X} o w1)
    from_session-Attached none w1 l = tt
    from_session-Attached (some s) w1 l =
        call_step _ Never (get_user_by_id s.user_id) session_user w1 (λ r w2 h.
          Outcome-map _ _ Never (session_user {X = X} r w2) (by_session_of s w1 l)
            (session_user-ActiveUser s.user_id r w1 w2 h))

    resolve_from_session-Attached :
        Outcome (λ o w'. IfSome (Attached X sha256 c w) o) Never (resolve_from_session {X = X} c w)
    unfolding resolve_from_session
    resolve_from_session-Attached =
        bind_step _ Never _ (lookup c.cookie) from_session w (lookup-OfCookie c.cookie w)
          from_session-Attached

    module _ (w1 : World) (no_session : resolve_from_session {X = X} c w ≡ (go none, w1)) where
      by_token_of :
          (plain : Bytes) (row : PersonalAccessToken) (w2 : World)
          → parse_from_header c.authorization ≡ some plain
          → call {X = X} (get_pat_by_hash (hash sha256 plain)) w1 ≡ (go (ok row), w2)
          → (o : Option AuthUser) (w' : World)
          → IfSome (λ u. ActiveUser row.user_id u.user w2 × (u.via_pat ≡ true)) o
          → IfSome (Attached X sha256 c w) o
      by_token_of plain row w2 e h none w' a = tt
      by_token_of plain row w2 e h (some u) w' (a, v) =
          let found = call-Ran {X = X} (get_pat_by_hash (hash sha256 plain)) w1 h in
          by_token plain row w1 w2 no_session e found
            (found-current (hash sha256 plain) row w1 w2 found) a v

      from_token-Attached :
          (plain : Bytes) (r : Result DbError PersonalAccessToken) (w2 : World)
          → parse_from_header c.authorization ≡ some plain
          → call {X = X} (get_pat_by_hash (hash sha256 plain)) w1 ≡ (go r, w2)
          → Outcome (λ o w'. IfSome (Attached X sha256 c w) o) Never (from_token {X = X} r w2)
      from_token-Attached plain (err e) w2 p h = tt
      from_token-Attached plain (ok row) w2 p h =
          call_step _ Never (get_user_by_id row.user_id) (token_user row) w2 (λ r w3 k.
            Outcome-map _ _ Never (token_user {X = X} row r w3) (by_token_of plain row w2 p h)
              (token_user-ActiveUser row r w2 w3 k))

      from_header-Attached :
          (o : Option Bytes)
          → parse_from_header c.authorization ≡ o
          → Outcome
              (λ o w'. IfSome (Attached X sha256 c w) o)
              Never
              (from_header {X = X} sha256 o w1)
      from_header-Attached none e = tt
      from_header-Attached (some plain) e =
          call_step _ Never (get_pat_by_hash (hash sha256 plain)) from_token w1
            (λ r w2 h. from_token-Attached plain r w2 e h)

    or_token-Attached :
        (o : Option AuthUser) (w1 : World)
        → resolve_from_session {X = X} c w ≡ (go o, w1)
        → IfSome (Attached X sha256 c w) o
        → Outcome (λ o w'. IfSome (Attached X sha256 c w) o) Never (or_token {X = X} sha256 c o w1)
    unfolding resolve_from_pat
    or_token-Attached (some u) w1 e a = a
    or_token-Attached none w1 e a =
        from_header-Attached w1 e (parse_from_header c.authorization) refl

    attach-IfSome :
        Outcome (λ o w'. IfSome (Attached X sha256 c w) o) Never (attach {X = X} sha256 c w)
    unfolding attach
    attach-IfSome =
        bind_eq_step _ _ (resolve_from_session {X = X} c) (or_token sha256 c) w
          resolve_from_session-Attached or_token-Attached

    -- Whatever comes in between, a user is only attached to a request for a session or for a token.
    -- For a session: the first statement found it under the trimmed text of the cookie, not expired
    -- by then, and after the one that touches it a statement found its user. For a token: no session
    -- led to a user, the next statement found the token under the hash of the one in the
    -- Authorization header, neither revoked nor expired, and the one after it found its user. In
    -- both cases the row of the user, as that statement found it, is neither suspended nor deleted.
    pub attach-Attached :
        (u : AuthUser) (w' : World)
        → attach {X = X} sha256 c w ≡ (go (some u), w')
        → Attached X sha256 c w u
    attach-Attached u w' h =
        subst (Outcome (λ o w'. IfSome (Attached X sha256 c w) o) Never) h attach-IfSome
