-- ===== src/Agents/Tests.antt =====
-- Ann creates an agent, rotates and revokes the key of another and changes its custody.
use diarion_core.Prelude.{
  ◌≡◌, refl, false, some, none, Option, [], ◌++◌, codes, replicate, arith, drop, bytes_eq,
}
use diarion_core.Prelude.Result.{ok}
use diarion_core.Stdlib.Strings.{to_lower}
use diarion_core.Stdlib.Hex
use diarion_core.Envelope
use diarion_core.Envelope.{Aead}
use diarion_core.Keys.{issue, issue_self, issue_managed, fingerprint}
use diarion_core.Db.Sample.{ann, ada, sample_db}
use diarion_core.Db.Models.{Agent}
use diarion_core.Db.Table.{first_where, update_where, select_where, order_by, insert_by}
use diarion_core.Db.Agents.{get_agent_by_handle, update_agent_custody}
use diarion_core.Db.Keys.{
  list_keys_for_agent, revoke_agent_key, is_active, insert_agent_key,
  revoke_all_active_keys_for_agent, get_active_key_for_agent, get_agent_key_by_fingerprint,
}
use diarion_core.Db.World.{World, json, no_body, Nothing, go, call, quiet}
use diarion_core.Signing.Verifier.{AgentKeyRecord}
use diarion_core.Signing.Fetcher.{db_fetch, fetched}
use diarion_core.Middleware.{AuthUser}
use diarion_core.Agents.{Handlers, Drawn, load_owned_agent, shown_key, to_response}
use diarion_core.Agents.Create.{CreateRequest, create}
use diarion_core.Agents.Rotate.{
  RotateKeyResponse, SwitchCustodyResponse, rotate_key, switch_custody, revoke_key, find_key,
}
use diarion_core.Agents.Created.{Created, create-Created}
use diarion_core.Agents.Rotated.{RotatedAlone, live_agent, rotate_key-OnlyKey, rotate_key-db_fetch}
use diarion_core.Agents.Switched.{SwitchedAlone, switch_custody-SwitchedAlone}
use diarion_core.Agents.Revoked.{Revoked, revoke_key-Revoked}
use diarion_core.Stdlib.ParseInt.{parse_int}

abbrev marking : Aead
marking = record {
  seal = λ key nonce plain. replicate 16 9 ++ plain;
  unseal = λ key nonce sealed. some (drop 16 sealed);
  unseal-seal = λ key nonce plain. refl;
  length-seal = λ key nonce plain. omega arith;
}

abbrev handlers : Handlers
handlers = record { master_key = replicate 32 8; aead = marking; sha256 = λ s. s }

abbrev drawn : Drawn
drawn = record {
  pair = some (record { public_key = replicate 32 1; private_key = replicate 64 2 });
  randoms = record {
    dek = some (replicate 32 3);
    kek_nonce = some (replicate 12 4);
    dek_nonce = some (replicate 12 5);
  };
}

abbrev start : World
start = quiet 100 sample_db

abbrev as_ann : Option AuthUser
as_ann = some (record { user = ann; via_pat = false })

abbrev request : Option CreateRequest
request = some (record {
  handle = codes " eve ";
  display_name = codes "Eve";
  bio = none;
  avatar_url = none;
  show_operator_publicly = false;
  key_custody = [];
  stack_provider = none;
  stack_family = none;
  stack_harness = none;
  stack_notes = none;
})

create-Created_example :
    Created handlers drawn as_ann request start
      (create handlers drawn as_ann request start).0
      (create handlers drawn as_ann request start).1
create-Created_example =
    create-Created handlers drawn as_ann request start
      (create handlers drawn as_ann request start).0 (create handlers drawn as_ann request start).1
      refl

abbrev rotated_response : RotateKeyResponse
rotated_response = record {
  id = 10;
  fingerprint = Hex.encode (replicate 32 1);
  custody = codes "self";
  private_key = some (Hex.encode (replicate 64 2));
}

abbrev rotated_world : World
rotated_world = (rotate_key handlers drawn as_ann (codes "ADA") start).1

rotate_key_runs :
    rotate_key handlers drawn as_ann (codes "ADA") start
    ≡ (json 201 rotated_response, rotated_world)
unfolding rotate_key load_owned_agent call get_agent_by_handle first_where to_lower bytes_eq issue
    issue_self fingerprint shown_key revoke_all_active_keys_for_agent update_where is_active
    insert_agent_key Hex.encode
rotate_key_runs = refl

rotate_key-OnlyKey_example : RotatedAlone as_ann (codes "ADA") start rotated_response rotated_world
rotate_key-OnlyKey_example =
    rotate_key-OnlyKey handlers drawn as_ann (codes "ADA") start rotated_response rotated_world refl
      rotate_key_runs

abbrev new_key : AgentKeyRecord
new_key = record {
  fingerprint = Hex.encode (replicate 32 1);
  public_key = replicate 32 1;
  agent_id = 4;
  key_id = 10;
}

abbrev later : World
later = quiet 200 rotated_world.db

new_key_found :
    db_fetch {X = Nothing} (Hex.encode (replicate 32 1)) later ≡ (go (ok (some new_key)), later)
unfolding rotate_key load_owned_agent call get_agent_by_handle first_where to_lower bytes_eq issue
    issue_self fingerprint shown_key revoke_all_active_keys_for_agent update_where is_active
    insert_agent_key get_agent_key_by_fingerprint fetched Hex.encode
new_key_found = refl

rotate_key-db_fetch_example :
    (agent : Agent) × (live_agent (codes "ADA") start.db ≡ some agent)
    × (new_key.agent_id ≡ agent.id → new_key.key_id ≡ rotated_response.id)
rotate_key-db_fetch_example =
    rotate_key-db_fetch handlers drawn as_ann (codes "ADA") start rotated_response rotated_world
      (Hex.encode (replicate 32 1)) later new_key later refl rotate_key_runs new_key_found refl

abbrev switched_response : SwitchCustodyResponse
switched_response = record {
  agent = record (to_response ada (Hex.encode (replicate 32 1))) { key_custody = codes "managed" };
  private_key = none;
}

abbrev switched_world : World
switched_world =
    (switch_custody handlers drawn as_ann (codes "ada") (some (codes "managed")) start).1

switch_custody_runs :
    switch_custody handlers drawn as_ann (codes "ada") (some (codes "managed")) start
    ≡ (json 200 switched_response, switched_world)
unfolding switch_custody load_owned_agent call get_agent_by_handle first_where to_lower bytes_eq
    issue issue_managed fingerprint shown_key revoke_all_active_keys_for_agent update_where
    is_active insert_agent_key update_agent_custody get_active_key_for_agent Envelope.wrap
    Envelope.new_gcm Hex.encode order_by insert_by select_where
switch_custody_runs = refl

switch_custody-SwitchedAlone_example :
    SwitchedAlone handlers drawn as_ann
      (codes "ada")
      (some (codes "managed"))
      start
      switched_response
      switched_world
switch_custody-SwitchedAlone_example =
    switch_custody-SwitchedAlone handlers drawn as_ann (codes "ada") (some (codes "managed")) start
      switched_response switched_world refl switch_custody_runs

revoke_key-Revoked_example :
    Revoked as_ann
      (codes "ada")
      (codes "9")
      start
      (revoke_key as_ann (codes "ada") (codes "9") start).0
      (revoke_key as_ann (codes "ada") (codes "9") start).1
revoke_key-Revoked_example =
    revoke_key-Revoked as_ann (codes "ada") (codes "9") start
      (revoke_key as_ann (codes "ada") (codes "9") start).0
      (revoke_key as_ann (codes "ada") (codes "9") start).1 refl

revoked_ok : (revoke_key as_ann (codes "ada") (codes "9") start).0 ≡ no_body 204
unfolding revoke_key load_owned_agent call get_agent_by_handle first_where to_lower bytes_eq
    parse_int list_keys_for_agent select_where order_by insert_by find_key revoke_agent_key
revoked_ok = refl
