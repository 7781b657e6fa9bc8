-- ===== src/Login/Answered.antt =====
-- What the callback of the identity provider answers, with other requests and failures at any moment.
use diarion_core.Prelude.{
  ◌≡◌, ◌⊎◌, inl, inr, refl, true, false, Option, none, some, [], ◌∷◌, arith, Bytes, Bool-cases,
}
use diarion_core.Prelude.Result.{Result, ok, err}
use diarion_core.Db.Models.{User, Session}
use diarion_core.Db.World.{World, Reply, http_error, Handler, ◌>>=◌}
use diarion_core.Db.Outcome.{Outcome, bind_step, require_step, or_return_step}
use diarion_core.Session.{SessionError, SetCookie}
use diarion_core.Session as Sessions
use diarion_core.Entries.Accepted.{IsRefusal, Refuses, serve_or_refused}
use diarion_core.Entries.Post.{is_empty}
use diarion_core.Bin.{internal_error}
use diarion_core.Login.State.{consume}
use diarion_core.Login.Upsert.{Claims, upsert_user}
use diarion_core.Login.SignedIn.{Upserted, Opened, upsert_user-Upserted, issue-Opened}
use diarion_core.Login.{
  Url, Handlers, Redirect, found, is_safe_return, safe_or_root, Callback, or_session_error,
  sign_in_steps, consumed, google_callback,
}

-- A place to go back to.
abbrev pub IsSafe : (Bytes → Option Url) → Bytes → Type 0
IsSafe parse u = (is_safe_return parse u ≡ true) ⊎ (u ≡ b'/' ∷ [])

safe_or_root-IsSafe : (parse : Bytes → Option Url) (u : Bytes) → IsSafe parse (safe_or_root parse u)
safe_or_root-IsSafe parse u = elim (Bool-cases (is_safe_return parse u)) [
  | inl s ↦ inl (rw (s, s) refl)
  | inr n ↦ inr (rw n refl)
]

module _ {S : Type 0} (h : Handlers S) (random : Option Bytes) where
  -- The answer once the state is consumed.
  pub data SignedIn (code verifier return_url : Bytes) (w : World)
      : Reply Redirect → World → Type 0 where
    refused :
        {w' : World} (x : Reply Redirect) → IsRefusal x → SignedIn code verifier return_url w x w'
    signed_in :
        {w' : World} (claims : Claims) (user : User) (s : Session) (c : SetCookie) (w1 : World)
        → h.exchange code verifier ≡ some claims
        → Upserted claims user w w1
        → Opened random user.id s c w1 w'
        → IsSafe h.parse_url (safe_or_root h.parse_url return_url)
        → SignedIn code verifier return_url w
            (found (record { location = safe_or_root h.parse_url return_url; cookie = some c }))
            w'

  session_step :
      (R : Reply Redirect → World → Type 0) (r : Result SessionError (Session × SetCookie))
      (f : SetCookie → Handler (Reply Redirect) (Reply Redirect)) (w : World)
      → ((p : Session × SetCookie) → r ≡ ok p → Outcome R (Refuses Redirect) (f p.1 w))
      → Outcome R (Refuses Redirect) ((or_session_error r >>= f) w)
  session_step R (ok (s, c)) f w k = k (s, c) refl
  session_step R (err e) f w k = omega arith

  sign_in_steps-SignedIn :
      (code verifier return_url : Bytes) (w : World)
      → Outcome
          (SignedIn code verifier return_url w)
          (Refuses Redirect)
          (sign_in_steps h random code verifier return_url w)
  sign_in_steps-SignedIn code verifier return_url w =
      let T = Refuses Redirect in
      require_step _ T (h.exchange code verifier) (http_error 502 "exchange failed") _ w
        (omega arith)
        (λ claims at_claims.
          bind_step _ T _ (upsert_user claims) _ w (upsert_user-Upserted Redirect claims w)
            (λ r w1 up.
              or_return_step _ T internal_error r _ w1 (λ e. omega arith)
                (λ user is_user.
                  bind_step _ T _ (Sessions.issue random user.id) _ w1
                    (issue-Opened Redirect random user.id w1)
                    (λ o w2 opened. session_step _ o _ w2 (λ p is_p.
                      signed_in claims user p.0 p.1 w1 at_claims (up user is_user) (opened p is_p)
                        (safe_or_root-IsSafe h.parse_url return_url))))))

  -- The answer of the callback, with what it leaves in Redis and in the database.
  pub data Answered (cb : Callback) (s : S) (w : World) : Reply Redirect × S × World → Type 0 where
    turned_away : {r : Reply Redirect} → IsRefusal r → Answered cb s w (r, s, w)
    bad_state :
        {r : Reply Redirect} {s' : S}
        → consume h.redis h.codec cb.state w.now s ≡ (none, s')
        → IsRefusal r
        → Answered cb s w (r, s', w)
    completed :
        {r : Reply Redirect} {s' : S} {w' : World} (verifier return_url : Bytes)
        → (is_empty cb.error ≡ true) × (is_empty cb.state ≡ false) × (is_empty cb.code ≡ false)
        → consume h.redis h.codec cb.state w.now s ≡ (some (verifier, return_url), s')
        → SignedIn cb.code verifier return_url w r w'
        → Answered cb s w (r, s', w')

  consumed-Answered :
      (cb : Callback) (s : S) (w : World) (o : Option (Bytes × Bytes) × S)
      → (is_empty cb.error ≡ true) × (is_empty cb.state ≡ false) × (is_empty cb.code ≡ false)
      → consume h.redis h.codec cb.state w.now s ≡ o
      → Answered cb s w (consumed h random cb.code o w)
  consumed-Answered cb s w (none, s') given e = bad_state e (omega arith)
  consumed-Answered cb s w (some (verifier, return_url), s') given e =
      completed verifier return_url given e (
        serve_or_refused Redirect (SignedIn cb.code verifier return_url w)
          (sign_in_steps h random cb.code verifier return_url w) (λ x w1 r. refused x r)
          (sign_in_steps-SignedIn cb.code verifier return_url w) refl)

  -- Whatever comes in between, GoogleCallback turns a request without a state or a code or with an
  -- error parameter away with an error and leaves Redis alone; otherwise it consumes the state, and
  -- answers with an error or with a redirect. In the last case the code and the verifier of the state
  -- were exchanged for claims; the first statement found the user with their subject and the second
  -- refreshed that user, or the first found none and the second registered one; the last stored a
  -- session of that user under the random token that the cookie carries; and the location, the
  -- return URL of the state or the root, passes isSafeReturn or is the root.
  pub google_callback-Answered :
      (cb : Callback) (s : S) (w : World) → Answered cb s w (google_callback h random cb s w)
  unfolding google_callback
  google_callback-Answered cb s w = elim (Bool-cases (is_empty cb.error)) [
    | inr e ↦ rw e (turned_away (omega arith))
    | inl e ↦ elim (Bool-cases (is_empty cb.state)) [
      | inl t ↦ rw (e, t) (turned_away (omega arith))
      | inr t ↦ elim (Bool-cases (is_empty cb.code)) [
        | inl c ↦ rw (e, t, c) (turned_away (omega arith))
        | inr c ↦ rw (e, t, c) (consumed-Answered cb s w _ (e, t, c) refl)
      ]
    ]
  ]
