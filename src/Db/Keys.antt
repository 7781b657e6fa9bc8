-- ===== src/Db/Keys.antt =====
-- internal/db/dbgen/agent_keys.sql.go.
pub mod Active
use diarion_core.Prelude.{
  ℕ, suc, Bool, true, false, not, ◌&&◌, Option, none, some, List, [], ◌∷◌, ◌++◌, ltb, ◌==◌,
  if◌then◌else◌, length, any, head?, Bytes, bytes_eq,
}
use diarion_core.Prelude.Result.{ok, err, or_err}
use diarion_core.Db.Models.{Db, Time, AgentKey, KeyStatus, active, revoked}
use diarion_core.Db.Table.{select_where, first_where, update_where, order_by}
use diarion_core.Db.World.{
  Query, no_rows, fk_violation, check_violation, unique_violation, key_public_key, key_fingerprint,
}

pub record InsertAgentKeyParams : Type 0 where
  pub agent_id : ℕ
  pub public_key : Bytes
  pub fingerprint : Bytes
  pub encrypted_private_key : Option Bytes

-- The sequence moves on even if the row is refused.
unfoldable pub insert_agent_key : InsertAgentKeyParams → Query AgentKey
insert_agent_key arg now db =
    let row : AgentKey = record {
      id = db.next_key;
      agent_id = arg.agent_id;
      public_key = arg.public_key;
      fingerprint = arg.fingerprint;
      encrypted_private_key = arg.encrypted_private_key;
      status = active;
      created_at = now;
      revoked_at = none;
    } in
    let drawn : Db = record db { next_key = suc db.next_key } in
    if not (length arg.public_key == 32)
    then (err check_violation, drawn)
    else if any (λ k. bytes_eq k.public_key arg.public_key) db.agent_keys
    then (err (unique_violation key_public_key), drawn)
    else if any (λ k. bytes_eq k.fingerprint arg.fingerprint) db.agent_keys
    then (err (unique_violation key_fingerprint), drawn)
    else if not (any (λ a. a.id == arg.agent_id) db.agents)
    then (err fk_violation, drawn)
    else (ok row, record drawn { agent_keys = db.agent_keys ++ row ∷ [] })

unfoldable pub get_agent_key_by_fingerprint : Bytes → Query AgentKey
get_agent_key_by_fingerprint fp now db =
    (or_err (first_where (λ k. bytes_eq k.fingerprint fp) db.agent_keys) no_rows, db)

unfoldable pub is_active : KeyStatus → Bool
is_active active = true
is_active revoked = false

abbrev pub newer_key : AgentKey → AgentKey → Bool
newer_key k l = ltb l.created_at k.created_at

unfoldable pub get_active_key_for_agent : ℕ → Query AgentKey
unfolding is_active
get_active_key_for_agent agent_id now db = (
  or_err
      (head? (
        order_by newer_key
          (select_where (λ k. k.agent_id == agent_id && is_active k.status) db.agent_keys)))
      no_rows,
  db,
)

unfoldable pub list_keys_for_agent : ℕ → Query (List AgentKey)
list_keys_for_agent agent_id now db =
    (ok (order_by newer_key (select_where (λ k. k.agent_id == agent_id) db.agent_keys)), db)

abbrev pub revoke : Time → AgentKey → AgentKey
revoke now k = record k { status = revoked; revoked_at = some now }

unfoldable pub revoke_agent_key : ℕ → Query (Unit {0})
revoke_agent_key id now db =
    (ok tt, record db { agent_keys = update_where (λ k. k.id == id) (revoke now) db.agent_keys })

unfoldable pub revoke_all_active_keys_for_agent : ℕ → Query (Unit {0})
unfolding is_active
revoke_all_active_keys_for_agent agent_id now db = (
  ok tt,
  record db {
    agent_keys =
        update_where (λ k. k.agent_id == agent_id && is_active k.status) (revoke now) db.agent_keys;
  },
)
