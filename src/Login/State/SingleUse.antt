-- ===== src/Login/State/SingleUse.antt =====
-- A state nonce is good once, for ten minutes, and brings back the verifier of its challenge.
use diarion_core.Prelude.{
  ℕ, ◌+◌, ◌<◌, ◌≤◌, ◌≡◌, refl, Option, none, some, List, [], ◌∷◌, All, Bytes, arith, ◌∙◌,
}
use diarion_core.Prelude.Result.{Result, ok, err}
use diarion_core.Stdlib.Hex
use diarion_core.Stdlib.Base64
use diarion_core.Db.Models.{Time}
use diarion_core.Login.State.{
  RedisError, nil, Redis, StatePayload, Codec, state_ttl, Nonces, redis_key, stored, issue_from,
  issue, read_payload, consumed, consume,
}

-- Text of ASCII characters.
abbrev pub IsAscii : Bytes → Type 0
IsAscii = All (λ c. c < 128)

sextet_char-IsAscii : (v : ℕ) → Base64.sextet_char v < 128
unfolding Base64.sextet_char
sextet_char-IsAscii v = ground arith

map_chars-IsAscii : (vs : List ℕ) → IsAscii (Base64.map_chars vs)
map_chars-IsAscii [] = tt
map_chars-IsAscii (v ∷ vs) = (sextet_char-IsAscii v, map_chars-IsAscii vs)

encode-IsAscii : (s : Bytes) → IsAscii (Base64.encode s)
unfolding Base64.encode
encode-IsAscii s = map_chars-IsAscii (Base64.sextets s)

-- encoding/json reads back what it wrote for a payload whose texts are ASCII and whose time is an
-- int64. (It replaces what is not UTF-8 in a text.)
abbrev pub ReadsBack : Codec → Type 0
ReadsBack codec =
    (p : StatePayload)
    → IsAscii p.code_verifier
    → IsAscii p.return_url
    → p.created_at < 9223372036854775808
    → codec.unmarshal (codec.marshal p) ≡ some p

-- The second read finds nothing.
pub record SingleUse (S : Type 0) (redis : Redis S) (codec : Codec)
    (state challenge return_url : Bytes) (now : Time) (s : S) : Type 0 where
  pub verifier : Bytes
  pub bound : challenge ≡ Base64.encode (codec.sha256 verifier)
  pub in_time :
      (later : Time)
      → now ≤ later
      → later < now + state_ttl
      → (consume redis codec state later s).0 ≡ some (verifier, return_url)
  pub used_up :
      (later later' : Time)
      → now ≤ later
      → later < now + state_ttl
      → (consume redis codec state later' (consume redis codec state later s).1).0 ≡ none
  pub expired :
      (later : Time) → now + state_ttl ≤ later → (consume redis codec state later s).0 ≡ none

module _ {S : Type 0} (redis : Redis S) (codec : Codec) where
  consumed-ok :
      (r : Result RedisError Bytes × S) {v : Bytes}
      → r.0 ≡ ok v
      → ((consumed redis codec r).0 ≡ read_payload redis codec (codec.unmarshal v))
        × ((consumed redis codec r).1 ≡ r.1)
  consumed-ok (ok v, s) e = (ground arith, refl)
  consumed-ok (err x, s) e = cc

  consumed-err :
      (r : Result RedisError Bytes × S) {x : RedisError}
      → r.0 ≡ err x
      → (consumed redis codec r).0 ≡ none
  consumed-err (ok v, s) e = cc
  consumed-err (err x, s) e = refl

  issue_with-SingleUse :
      (state verifier return_url : Bytes) (now : Time) (s : S) (o : Option S)
      {given challenge : Bytes} {s' : S}
      → codec.unmarshal (
          codec.marshal
            (record { code_verifier = verifier; return_url = return_url; created_at = now }))
        ≡ some (record { code_verifier = verifier; return_url = return_url; created_at = now })
      → redis.set
          (redis_key state)
          (codec.marshal
            (record { code_verifier = verifier; return_url = return_url; created_at = now }))
          state_ttl
          now
          s
        ≡ o
      → stored redis codec state (Base64.encode (codec.sha256 verifier)) s o
        ≡ (some (given, challenge), s')
      → SingleUse S redis codec given challenge return_url now s'
  unfolding consume
  issue_with-SingleUse state verifier return_url now s none reads e h = cc
  issue_with-SingleUse state verifier return_url now s (some t) {given} {challenge} {s'} reads e h =
      let payload : StatePayload = record {
        code_verifier = verifier;
        return_url = return_url;
        created_at = now;
      } in
      let same_state : state ≡ given = cc in
      let same_challenge : Base64.encode (codec.sha256 verifier) ≡ challenge = cc in
      let same_store : t ≡ s' = cc in
      let hit : (later : Time)
          → now ≤ later
          → later < now + state_ttl
          → (redis.get_del (redis_key state) later t).0 ≡ ok (codec.marshal payload) =
        λ later after before.
          redis.get_del-set (redis_key state) (codec.marshal payload) state_ttl now later s t e
            before after in
      rw (← same_state, ← same_challenge, ← same_store)
        (record {
          verifier = verifier;
          bound = refl;
          in_time = λ later after before.
              (consumed-ok (redis.get_del (redis_key state) later t) (hit later after before)).0
              ∙ rw reads refl;
          used_up = λ later later' after before.
              let second =
                consumed-ok (redis.get_del (redis_key state) later t) (hit later after before) in
              let gone : (redis.get_del (redis_key state) later'
                    (consumed redis codec (redis.get_del (redis_key state) later t)).1).0
                  ≡ err nil =
                rw second.1 (
                  redis.get_del-get_del (redis_key state) (codec.marshal payload) later later' t
                    (hit later after before)) in
              consumed-err _ gone;
          expired = λ later past. consumed-err _ (
              redis.get_del-expired (redis_key state) (codec.marshal payload) state_ttl now later s
                t e past);
        })

  -- A login state that Issue has given, before the year 2262 and for an ASCII return URL, with a
  -- Redis server as its documentation says and an encoding/json that reads back what it wrote for
  -- ASCII texts: for ten minutes Consume gives the verifier whose SHA-256 the challenge is and the
  -- return URL, the second Consume after such a one fails at any time, and so does one after the ten
  -- minutes.
  pub issue-SingleUse :
      (n : Nonces) (return_url : Bytes) (now : Time) (s : S) {state challenge : Bytes} {s' : S}
      → ReadsBack codec
      → IsAscii return_url
      → now < 9223372036854775808
      → issue redis codec n return_url now s ≡ (some (state, challenge), s')
      → SingleUse S redis codec state challenge return_url now s'
  unfolding issue
  issue-SingleUse n return_url now s {state} {challenge} {s'} reads ascii early h =
      from n.state n.verifier h
    where
      from :
          (a b : Option Bytes)
          → issue_from redis codec a b return_url now s ≡ (some (state, challenge), s')
          → SingleUse S redis codec state challenge return_url now s'
      from none b h = cc
      from (some a) none h = cc
      from (some a) (some b) h =
          issue_with-SingleUse (Hex.encode a) (Base64.encode b) return_url now s _
            (reads
              (record {
                code_verifier = Base64.encode b;
                return_url = return_url;
                created_at = now;
              })
              (encode-IsAscii b) ascii early)
            refl h
