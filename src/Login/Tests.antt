-- ===== src/Login/Tests.antt =====
-- A login from its start to the session, with a Redis server that keeps one key.
use diarion_core.Prelude.{
  ℕ, ◌+◌, ◌<◌, ◌≤◌, ◌≡◌, refl, true, some, none, Option, [], ◌∷◌, ◌++◌, ◌&&◌, Bytes, codes,
  replicate, arith, bytes_eq, bytes_eq_refl, length, take, drop, take-append, drop-append, ltb,
  if◌then◌else◌, Bool-cases, inl, inr,
}
use diarion_core.Prelude.Result.{Result, ok, err}
use diarion_core.Stdlib.Hex
use diarion_core.Stdlib.Base64
use diarion_core.Db.Models.{Time}
use diarion_core.Db.Sample.{sample_db}
use diarion_core.Db.World.{World, quiet}
use diarion_core.Login.State.{RedisError, nil, Redis, StatePayload, Codec, Nonces, issue}
use diarion_core.Login.State.SingleUse.{IsAscii, SingleUse, issue-SingleUse}
use diarion_core.Login.{Handlers, Callback, google_callback}
use diarion_core.Login.Answered.{Answered, google_callback-Answered}

-- At most one key, with its value and its end.
abbrev Store : Type 0
Store = Option (Bytes × Bytes × Time)

abbrev take_out : Bytes → Time → Store → Result RedisError Bytes × Store
take_out k now none = (err nil, none)
take_out k now (some (j, v, end)) =
    if bytes_eq j k && ltb now end then (ok v, none) else (err nil, some (j, v, end))

abbrev put_in : Bytes → Bytes → ℕ → Time → Store → Option Store
put_in k v ttl now s = some (some (k, v, now + ttl))

stored_then_taken :
    (k v : Bytes) (ttl : ℕ) (now later : Time) (s s' : Store)
    → put_in k v ttl now s ≡ some s'
    → later < now + ttl
    → now ≤ later
    → (take_out k later s').0 ≡ ok v
stored_then_taken k v ttl now later s s' e before after =
    let same : some (k, v, now + ttl) ≡ s' = cc in rw (← same) (ground (arith, bytes_eq_refl k))

stored_then_expired :
    (k v : Bytes) (ttl : ℕ) (now later : Time) (s s' : Store)
    → put_in k v ttl now s ≡ some s'
    → now + ttl ≤ later
    → (take_out k later s').0 ≡ err nil
stored_then_expired k v ttl now later s s' e past =
    let same : some (k, v, now + ttl) ≡ s' = cc in rw (← same) (ground (arith, bytes_eq_refl k))

taken_once :
    (k v : Bytes) (now later : Time) (s : Store)
    → (take_out k now s).0 ≡ ok v
    → (take_out k later (take_out k now s).1).0 ≡ err nil
taken_once k v now later none e = cc
taken_once k v now later (some (j, u, end)) e = elim (Bool-cases (bytes_eq j k && ltb now end)) [
  | inl t ↦ rw t refl
  | inr t ↦ let k = rw t at e in cc
]

abbrev one_key : Redis Store
one_key = record {
  set = put_in;
  get_del = take_out;
  get_del-set = stored_then_taken;
  get_del-expired = stored_then_expired;
  get_del-get_del = taken_once;
}

abbrev read : Bytes → Option StatePayload
read (t ∷ n ∷ s) = some (record { code_verifier = take n s; return_url = drop n s; created_at = t })
read s = none

abbrev plain : Codec
plain = record {
  marshal = λ p. p.created_at ∷ length p.code_verifier ∷ (p.code_verifier ++ p.return_url);
  unmarshal = read;
  sha256 = λ s. s;
}

plain_reads : (p : StatePayload) → plain.unmarshal (plain.marshal p) ≡ some p
plain_reads p =
    rw (take-append p.code_verifier p.return_url, drop-append p.code_verifier p.return_url) refl

abbrev nonces : Nonces
nonces = record { state = some (replicate 32 3); verifier = some (replicate 48 4) }

abbrev state : Bytes
state = Hex.encode (replicate 32 3)

abbrev challenge : Bytes
challenge = Base64.encode (Base64.encode (replicate 48 4))

abbrev kept : Store
kept = (issue one_key plain nonces (codes "/bin") 1000 none).1

issue_runs : issue one_key plain nonces (codes "/bin") 1000 none ≡ (some (state, challenge), kept)
unfolding issue
issue_runs = refl

IsAscii-path : IsAscii (codes "/bin")
IsAscii-path = (omega arith, (omega arith, (omega arith, (omega arith, tt))))

issue-SingleUse_example : SingleUse Store one_key plain state challenge (codes "/bin") 1000 kept
issue-SingleUse_example =
    issue-SingleUse one_key plain nonces (codes "/bin") 1000 none (λ p a b c. plain_reads p)
      IsAscii-path (omega arith) issue_runs

abbrev handlers : Handlers Store
handlers = record {
  redis = one_key;
  codec = plain;
  auth_code_url = λ s c. codes "https://id/" ++ s;
  exchange = λ code verifier. some (record {
    sub = codes "g-1";
    email = codes "ann@e.com";
    email_verified = true;
    name = [];
    picture = [];
  });
  parse_url = λ u. some (record { scheme = []; host = [] });
}

abbrev callback : Callback
callback = record { error = []; state = state; code = codes "c" }

abbrev start : World
start = quiet 2000 sample_db

google_callback-Answered_example :
    Answered handlers
      (some (replicate 32 6))
      callback
      kept
      start
      (google_callback handlers (some (replicate 32 6)) callback kept start)
google_callback-Answered_example =
    google_callback-Answered handlers (some (replicate 32 6)) callback kept start
