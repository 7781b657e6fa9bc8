-- ===== src/Agents/Revoked.antt =====
-- What RevokeKey has gone through and leaves, with other requests and failures at any moment.
use diarion_core.Prelude.{
  ℕ, ◌≡◌, refl, sym, ap, subst, Bool, true, false, Option, some, List, [], ◌∷◌, arith, ◌==◌, All,
  Bytes, Bool-cases, inl, inr,
}
use diarion_core.Prelude.Int.{ℤ}
use diarion_core.Prelude.Result.{ok}
use diarion_core.Stdlib.ParseInt.{parse_int}
use diarion_core.Db.Models.{Db, Time, Agent, AgentKey}
use diarion_core.Db.Table.{select_where, order_by, update_where, update_where-All}
use diarion_core.Db.Table.Page.{select_where-holds}
use diarion_core.Db.Table.Sorted.{order_by-All}
use diarion_core.Db.Keys.{newer_key, is_active, revoke, list_keys_for_agent, revoke_agent_key}
use diarion_core.Db.World.{World, Reply, http_error, no_body, Nothing, seen}
use diarion_core.Db.World.Ran.{Ran, call-Ran}
use diarion_core.Db.Outcome.{Outcome, bind_step, require_step, or_return_step, call_step}
use diarion_core.Middleware.{AuthUser}
use diarion_core.Entries.{missing_or_internal}
use diarion_core.Entries.Accepted.{
  IsRefusal, Refuses, serve_or_refused, missing_or_internal-IsRefusal,
}
use diarion_core.Agents.{load_owned_agent, internal_error}
use diarion_core.Agents.Rotate.{is_id, find_key, revoke_key_steps, revoke_key}
use diarion_core.Agents.Owned.{Owned, load_owned_agent-Owned}

find_key-holds :
    (P : AgentKey → Type 0) (id : ℤ) (keys : List AgentKey) (k : AgentKey)
    → All P keys
    → find_key id keys ≡ some k
    → P k × (is_id id k.id ≡ true)
unfolding find_key
find_key-holds P id [] k h e = cc
find_key-holds P id (x ∷ keys) k (px, h) e = elim (Bool-cases (is_id id x.id)) [
  | inl i ↦
      let f = rw i at e in
      let same : x ≡ k = cc in (subst P same px, subst (λ y. is_id id y.id ≡ true) same i)
  | inr i ↦ find_key-holds P id keys k h (rw i at e)
]

list_keys-own :
    (agent : ℕ) (now : Time) (db : Db) {keys : List AgentKey} {db' : Db}
    → list_keys_for_agent agent now db ≡ (ok keys, db')
    → All (λ k. (k.agent_id == agent) ≡ true) keys
unfolding list_keys_for_agent
list_keys-own agent now db {keys} h =
    let own : AgentKey → Bool = λ k. k.agent_id == agent in
    let same : order_by newer_key (select_where own db.agent_keys) ≡ keys = cc in
    subst (All (λ k. own k ≡ true)) same
      (order_by-All newer_key (λ k. own k ≡ true) _ (select_where-holds own db.agent_keys))

-- No row of that id is active.
abbrev pub Dead : ℕ → List AgentKey → Type 0
Dead id = All (λ k. (k.id == id) ≡ true → is_active k.status ≡ false)

revoke-Dead :
    (id : ℕ) (now : Time) (keys : List AgentKey)
    → Dead id (update_where (λ k. k.id == id) (revoke now) keys)
unfolding is_active
revoke-Dead id now keys =
    update_where-All (λ k. (k.id == id) ≡ true → is_active k.status ≡ false) (λ k. k.id == id)
      (revoke now) keys (λ k e i. refl) (λ k e i. cc)

revoke_agent_key-left :
    (id : ℕ) (now : Time) (db : Db) {u : Unit {0}} {db' : Db}
    → revoke_agent_key id now db ≡ (ok u, db')
    → db' ≡ record db { agent_keys = update_where (λ k. k.id == id) (revoke now) db.agent_keys }
unfolding revoke_agent_key
revoke_agent_key-left id now db h = sym (ap (λ p. p.1) h)

-- A key of an agent of the user is revoked, and no other row has changed: each statement is run
-- where the one before it ended.
pub record RevokedKey (attached : Option AuthUser) (handle raw : Bytes) (w : World) (w' : World)
    : Type 0 where
  pub agent : Agent
  pub loaded : World
  pub own : Owned attached handle w agent loaded
  pub keys : List AgentKey
  pub between : World
  pub listed : Ran (list_keys_for_agent agent.id) loaded keys between
  pub key : AgentKey
  pub id : ℤ
  pub read : parse_int 64 raw ≡ some id
  pub chosen : find_key id keys ≡ some key
  pub named : is_id id key.id ≡ true
  pub of_agent : (key.agent_id == agent.id) ≡ true
  pub revoked : Ran (revoke_agent_key key.id) between tt w'
  pub left : w'.db ≡ record (seen between) {
    agent_keys = update_where (λ k. k.id == key.id) (revoke w'.now) (seen between).agent_keys;
  }
  pub dead : Dead key.id w'.db.agent_keys

-- An answer of RevokeKey.
pub data Revoked (attached : Option AuthUser) (handle raw : Bytes) (w : World)
    : Reply Nothing → World → Type 0 where
  refused : {w' : World} (x : Reply Nothing) → IsRefusal x → Revoked attached handle raw w x w'
  revoked :
      {w' : World}
      → RevokedKey attached handle raw w w'
      → Revoked attached handle raw w (no_body 204) w'

revoke_key_steps-Revoked :
    (attached : Option AuthUser) (handle raw : Bytes) (w : World)
    → Outcome
        (Revoked attached handle raw w)
        (Refuses Nothing)
        (revoke_key_steps attached handle raw w)
revoke_key_steps-Revoked attached handle raw w =
    let S = Refuses Nothing in
    bind_step _ S (λ a w1. Owned attached handle w a w1)
      (load_owned_agent {R = Nothing} attached handle) _ w
      (load_owned_agent-Owned Nothing attached handle w)
      (λ a w1 own.
        require_step _ S (parse_int 64 raw) (http_error 400 "invalid key id") _ w1 (omega arith)
          (λ id read. call_step _ S (list_keys_for_agent a.id) _ w1 (λ listed w2 at_list.
            or_return_step _ S (missing_or_internal (http_error 404 "key not found")) listed _ w2
              (λ e. missing_or_internal-IsRefusal (http_error 404 "key not found") e (omega arith))
              (λ keys is_keys.
                require_step _ S (find_key id keys) (http_error 404 "key not found") _ w2
                  (omega arith)
                  (λ k found. call_step _ S (revoke_agent_key k.id) _ w2 (λ r w3 at_revoke.
                    or_return_step _ S internal_error r _ w3 (λ e. omega arith)
                      (λ done is_done.
                        let listed : Ran (list_keys_for_agent a.id) w1 keys w2 =
                          call-Ran {X = Reply Nothing} (list_keys_for_agent a.id) w1
                            (rw is_keys at at_list) in
                        let ran : Ran (revoke_agent_key k.id) w2 tt w3 =
                          call-Ran {X = Reply Nothing} (revoke_agent_key k.id) w2
                            (rw is_done at at_revoke) in
                        let (of_agent, named) =
                          find_key-holds (λ k. (k.agent_id == a.id) ≡ true) id keys k
                            (list_keys-own a.id w2.now (seen w1) listed.ran) found in
                        let left = revoke_agent_key-left k.id w3.now (seen w2) ran.ran in
                        revoked (record {
                          agent = a;
                          loaded = w1;
                          own = own;
                          keys = keys;
                          between = w2;
                          listed = listed;
                          key = k;
                          id = id;
                          read = read;
                          chosen = found;
                          named = named;
                          of_agent = of_agent;
                          revoked = ran;
                          left = left;
                          dead = rw left (revoke-Dead k.id w3.now (seen w2).agent_keys);
                        }))))))))

-- Whatever comes in between, RevokeKey answers with an error status, or with 204: then the first
-- statement found the handle to name a live agent of the user of the request, the next listed the
-- keys of that agent, the id in the path named one of them, and the last left the tables that it ran
-- on, but for the rows with the id of that key, which are revoked: none of that id is active.
pub revoke_key-Revoked :
    (attached : Option AuthUser) (handle raw : Bytes) (w : World) (reply : Reply Nothing)
    (w' : World)
    → revoke_key attached handle raw w ≡ (reply, w')
    → Revoked attached handle raw w reply w'
unfolding revoke_key
revoke_key-Revoked attached handle raw w reply w' e =
    serve_or_refused Nothing (Revoked attached handle raw w)
      (revoke_key_steps attached handle raw w) (λ x w1 r. refused x r)
      (revoke_key_steps-Revoked attached handle raw w) e
