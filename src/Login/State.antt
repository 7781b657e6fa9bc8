-- ===== src/Login/State.antt =====
-- internal/handlers/auth/state.go: the state nonce of a login, kept in Redis until it is consumed.
pub mod SingleUse
use diarion_core.Prelude.{
  ℕ, ◌+◌, ◌*◌, ◌<◌, ◌≤◌, ◌≡◌, refl, Option, none, some, ◌++◌, Bytes, codes, IsBytes, arith, length,
}
use diarion_core.Prelude.Result.{Result, ok, err}
use diarion_core.Stdlib.Hex
use diarion_core.Stdlib.Base64
use diarion_core.Db.Models.{Time}

-- GETDEL finds nothing, or fails.
pub data RedisError : Type 0 where
  nil failed : RedisError

-- The two commands of a Redis server with states `S`, and what its documentation says of them: a
-- key that was SET with an expiry is there until then, and GETDEL takes it away.
pub record Redis (S : Type 0) : Type 0 where
  pub set : Bytes → Bytes → ℕ → Time → S → Option S
  pub get_del : Bytes → Time → S → Result RedisError Bytes × S
  pub get_del-set :
      (k v : Bytes) (ttl : ℕ) (now later : Time) (s s' : S)
      → set k v ttl now s ≡ some s'
      → later < now + ttl
      → now ≤ later
      → (get_del k later s').0 ≡ ok v
  pub get_del-expired :
      (k v : Bytes) (ttl : ℕ) (now later : Time) (s s' : S)
      → set k v ttl now s ≡ some s'
      → now + ttl ≤ later
      → (get_del k later s').0 ≡ err nil
  pub get_del-get_del :
      (k v : Bytes) (now later : Time) (s : S)
      → (get_del k now s).0 ≡ ok v
      → (get_del k later (get_del k now s).1).0 ≡ err nil

pub record StatePayload : Type 0 where
  pub code_verifier : Bytes
  pub return_url : Bytes
  pub created_at : Time

-- encoding/json of the payload, and SHA-256.
pub record Codec : Type 0 where
  pub marshal : StatePayload → Bytes
  pub unmarshal : Bytes → Option StatePayload
  pub sha256 : Bytes → Bytes

-- StateTTL, in nanoseconds.
abbrev pub state_ttl : ℕ
state_ttl = 10 * 60 * 1000000000

-- The two random reads, `none` for a failed one.
pub record Nonces : Type 0 where
  pub state : Option Bytes
  pub verifier : Option Bytes

unfoldable pub redis_key : Bytes → Bytes
redis_key state = codes "oauth:state:" ++ state

module _ {S : Type 0} (redis : Redis S) (codec : Codec) where
  abbrev pub stored : Bytes → Bytes → S → Option S → Option (Bytes × Bytes) × S
  stored state challenge s none = (none, s)
  stored state challenge s (some s') = (some (state, challenge), s')

  abbrev pub issue_with : Bytes → Bytes → Bytes → Time → S → Option (Bytes × Bytes) × S
  issue_with state verifier return_url now s =
      let payload : StatePayload = record {
        code_verifier = verifier;
        return_url = return_url;
        created_at = now;
      } in
      stored state (Base64.encode (codec.sha256 verifier)) s
        (redis.set (redis_key state) (codec.marshal payload) state_ttl now s)

  abbrev pub issue_from :
      Option Bytes → Option Bytes → Bytes → Time → S → Option (Bytes × Bytes) × S
  issue_from none verifier return_url now s = (none, s)
  issue_from (some state) none return_url now s = (none, s)
  issue_from (some state) (some verifier) return_url now s =
      issue_with (Hex.encode state) (Base64.encode verifier) return_url now s

  -- The state and the challenge, `none` for an error.
  unfoldable pub issue : Nonces → Bytes → Time → S → Option (Bytes × Bytes) × S
  issue n return_url now s = issue_from n.state n.verifier return_url now s

  abbrev pub read_payload : Option StatePayload → Option (Bytes × Bytes)
  read_payload none = none
  read_payload (some p) = some (p.code_verifier, p.return_url)

  abbrev pub consumed : Result RedisError Bytes × S → Option (Bytes × Bytes) × S
  consumed (err e, s) = (none, s)
  consumed (ok val, s) = (read_payload (codec.unmarshal val), s)

  -- The code verifier and the return URL, `none` for an error.
  unfoldable pub consume : Bytes → Time → S → Option (Bytes × Bytes) × S
  consume state now s = consumed (redis.get_del (redis_key state) now s)
