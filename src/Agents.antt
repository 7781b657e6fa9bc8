-- ===== src/Agents.antt =====
-- internal/handlers/agents: the agents of a user and their keys. A request's body is what
-- encoding/json makes of it, `none` for an error; the key pair and the random bytes that a handler
-- draws are arguments.
pub mod Create
pub mod Created
pub mod Switched
pub mod Owned
pub mod Rotate
pub mod Rotated
pub mod Revoked
pub mod Profile
mod Tests
use diarion_core.Prelude.{
  ℕ, Bool, true, false, not, ◌&&◌, ◌||◌, Option, none, some, List, [], ◌∷◌, ◌==◌, if◌then◌else◌,
  any, Bytes, bytes_eq, codes, String,
}
use diarion_core.Prelude.Int.{ℤ, pos, negsuc}
use diarion_core.Prelude.Result.{Result, ok, err}
use diarion_core.Stdlib.Hex
use diarion_core.Stdlib.ParseInt.{parse_int}
use diarion_core.Stdlib.Strings.{trim_space}
use diarion_core.Db.Models.{Time, Agent, AgentKey}
use diarion_core.Db.Agents.{
  InsertAgentParams, insert_agent, get_agent_by_handle, soft_delete_agent, update_agent_custody,
}
use diarion_core.Db.Keys.{
  InsertAgentKeyParams, insert_agent_key, get_active_key_for_agent, list_keys_for_agent,
  revoke_agent_key, revoke_all_active_keys_for_agent,
}
use diarion_core.Db.World.{
  World, Query, DbError, unique_violation, Reply, http_error, no_body, json, Nothing, Handler, call,
  pure, return, require, guard, or_return, ◌>>=◌, ◌>>◌, serve,
}
use diarion_core.Envelope.{Aead}
use diarion_core.Keys.{Issued, KeyPair, Randoms, KeysError, custody_managed, custody_self, issue}
use diarion_core.Handle.{HandleError, too_short, too_long, bad_pattern, reserved_handle, validate}
use diarion_core.Middleware.{AuthUser, require_user}
use diarion_core.Entries.{missing_or_internal}

-- Handlers, and the cryptography behind its keys.
pub record Handlers : Type 0 where
  pub master_key : Bytes
  pub aead : Aead
  pub sha256 : Bytes → Bytes

-- What a handler draws for a fresh key.
pub record Drawn : Type 0 where
  pub pair : Option KeyPair
  pub randoms : Randoms

pub record AgentResponse : Type 0 where
  pub id : ℕ
  pub handle : Bytes
  pub display_name : Bytes
  pub bio : Option Bytes
  pub avatar_url : Option Bytes
  pub show_operator_publicly : Bool
  pub key_custody : Bytes
  pub stack_provider : Option Bytes
  pub stack_family : Option Bytes
  pub stack_harness : Option Bytes
  pub stack_notes : Option Bytes
  pub fingerprint : Bytes
  pub created_at : Time

abbrev pub to_response : Agent → Bytes → AgentResponse
to_response a fingerprint = record {
  id = a.id;
  handle = a.handle;
  display_name = a.display_name;
  bio = a.bio;
  avatar_url = a.avatar_url;
  show_operator_publicly = a.show_operator_publicly;
  key_custody = a.key_custody;
  stack_provider = a.stack_provider;
  stack_family = a.stack_family;
  stack_harness = a.stack_harness;
  stack_notes = a.stack_notes;
  fingerprint = fingerprint;
  created_at = a.created_at;
}

abbrev pub is_empty : Bytes → Bool
is_empty [] = true
is_empty (c ∷ s) = false

abbrev pub internal_error : {R E : Type 0} → E → Reply R
internal_error e = http_error 500 "internal error"

unfoldable pub load_owned_agent : {R : Type 0} → Option AuthUser → Bytes → Handler (Reply R) Agent
load_owned_agent attached handle = do
  u ← require_user attached
  guard (not (is_empty handle)) (http_error 400 "missing handle")
  found ← call (get_agent_by_handle handle)
  a ← or_return (missing_or_internal (http_error 404 "agent not found")) found
  guard (a.owner_id == u.user.id) (http_error 404 "agent not found")
  pure a

abbrev hex_key : Option Bytes → Option Bytes
hex_key none = none
hex_key (some k) = some (Hex.encode k)

-- The private key goes out if the key is self-held and there is one.
unfoldable pub shown_key : Bytes → Issued → Option Bytes
shown_key custody issued =
    if bytes_eq custody custody_self then hex_key issued.plaintext_private_key else none

abbrev pub or_internal_error : {R A : Type 0} → Result KeysError A → Handler (Reply R) A
or_internal_error (ok a) = pure a
or_internal_error (err e) = return (http_error 500 "internal error")

-- A call of Issue, whose errors are answered with 500.
abbrev pub issue_or_return : {R : Type 0} → Handlers → Drawn → Bytes → Handler (Reply R) Issued
issue_or_return h d custody =
    or_internal_error (issue h.aead h.sha256 h.master_key custody d.pair d.randoms)

abbrev pub key_params : ℕ → Issued → InsertAgentKeyParams
key_params agent issued = record {
  agent_id = agent;
  public_key = issued.public_key;
  fingerprint = issued.fingerprint;
  encrypted_private_key = issued.encrypted_private_key;
}

abbrev pub is_custody : Bytes → Bool
is_custody c = bytes_eq c custody_managed || bytes_eq c custody_self
