-- ===== src/Agents/Rotate.antt =====
-- internal/handlers/agents/keys.go and custody.go: fresh keys for an agent, and revocation.
use diarion_core.Prelude.{
  ℕ, Bool, false, not, Option, none, some, List, [], ◌∷◌, ◌==◌, if◌then◌else◌, Bytes, bytes_eq,
}
use diarion_core.Prelude.Int.{ℤ, pos, negsuc}
use diarion_core.Stdlib.ParseInt.{parse_int}
use diarion_core.Db.Models.{Agent, AgentKey}
use diarion_core.Db.Agents.{update_agent_custody}
use diarion_core.Db.Keys.{
  insert_agent_key, get_active_key_for_agent, list_keys_for_agent, revoke_agent_key,
  revoke_all_active_keys_for_agent,
}
use diarion_core.Db.World.{
  World, Reply, http_error, no_body, json, Nothing, Handler, call, pure, require, guard, or_return,
  ◌>>=◌, ◌>>◌, serve,
}
use diarion_core.Keys.{Issued}
use diarion_core.Middleware.{AuthUser}
use diarion_core.Entries.{missing_or_internal}
use diarion_core.Agents.{
  Handlers, Drawn, AgentResponse, to_response, internal_error, load_owned_agent, shown_key,
  issue_or_return, key_params, is_custody,
}

pub record RotateKeyResponse : Type 0 where
  pub id : ℕ
  pub fingerprint : Bytes
  pub custody : Bytes
  pub private_key : Option Bytes

abbrev pub rotate_response : Agent → AgentKey → Issued → RotateKeyResponse
rotate_response a key issued = record {
  id = key.id;
  fingerprint = issued.fingerprint;
  custody = a.key_custody;
  private_key = shown_key a.key_custody issued;
}

-- The active keys are revoked and the fresh one is inserted, in two transactions.
abbrev pub replace_keys : {R : Type 0} → ℕ → Issued → Handler (Reply R) AgentKey
replace_keys agent issued = do
  revoked ← call (revoke_all_active_keys_for_agent agent)
  done ← or_return internal_error revoked
  keyed ← call (insert_agent_key (key_params agent issued))
  or_return internal_error keyed

abbrev pub rotate_key_steps :
    Handlers
    → Drawn
    → Option AuthUser
    → Bytes
    → Handler (Reply RotateKeyResponse) (Reply RotateKeyResponse)
rotate_key_steps h d attached handle = do
  a ← load_owned_agent attached handle
  issued ← issue_or_return h d a.key_custody
  key ← replace_keys a.id issued
  pure (json 201 (rotate_response a key issued))

unfoldable pub rotate_key :
    Handlers → Drawn → Option AuthUser → Bytes → World → Reply RotateKeyResponse × World
rotate_key h d attached handle w = serve (rotate_key_steps h d attached handle w)

-- Whether a row has the id of the path.
abbrev pub is_id : ℤ → ℕ → Bool
is_id (pos n) id = id == n
is_id (negsuc n) id = false

-- The key that the loop over the rows looks for.
unfoldable pub find_key : ℤ → List AgentKey → Option AgentKey
find_key id [] = none
find_key id (k ∷ ks) = if is_id id k.id then some k else find_key id ks

-- The statement gets the id of the path, which is that of the row found.
abbrev pub revoke_key_steps :
    Option AuthUser → Bytes → Bytes → Handler (Reply Nothing) (Reply Nothing)
revoke_key_steps attached handle raw = do
  a ← load_owned_agent attached handle
  id ← require (parse_int 64 raw) (http_error 400 "invalid key id")
  listed ← call (list_keys_for_agent a.id)
  all ← or_return (missing_or_internal (http_error 404 "key not found")) listed
  k ← require (find_key id all) (http_error 404 "key not found")
  revoked ← call (revoke_agent_key k.id)
  done ← or_return internal_error revoked
  pure (no_body 204)

unfoldable pub revoke_key : Option AuthUser → Bytes → Bytes → World → Reply Nothing × World
revoke_key attached handle raw w = serve (revoke_key_steps attached handle raw w)

pub record SwitchCustodyResponse : Type 0 where
  pub agent : AgentResponse
  pub private_key : Option Bytes

abbrev pub switch_response : Agent → Issued → Bytes → SwitchCustodyResponse
switch_response a issued target = record {
  agent = to_response a issued.fingerprint;
  private_key = shown_key target issued;
}

-- The body is the wanted custody. The last statement only finds an error to log.
abbrev pub switch_custody_steps :
    Handlers
    → Drawn
    → Option AuthUser
    → Bytes
    → Option Bytes
    → Handler (Reply SwitchCustodyResponse) (Reply SwitchCustodyResponse)
switch_custody_steps h d attached handle body = do
  a ← load_owned_agent attached handle
  target ← require body (http_error 400 "invalid JSON body")
  guard (is_custody target) (http_error 400 "to must be 'managed' or 'self'")
  guard (not (bytes_eq target a.key_custody))
      (http_error 400 "agent is already in that custody mode")
  issued ← issue_or_return h d target
  key ← replace_keys a.id issued
  changed ← call (update_agent_custody a.id target)
  updated ← or_return internal_error changed
  seen ← call (get_active_key_for_agent updated.id)
  pure (json 200 (switch_response updated issued target))

unfoldable pub switch_custody :
    Handlers
    → Drawn
    → Option AuthUser
    → Bytes
    → Option Bytes
    → World
    → Reply SwitchCustodyResponse × World
switch_custody h d attached handle body w = serve (switch_custody_steps h d attached handle body w)
