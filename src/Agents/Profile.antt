-- ===== src/Agents/Profile.antt =====
-- internal/handlers/agents/list_get.go and update_delete.go.
use diarion_core.Prelude.{Bool, Option, none, some, List, [], ◌∷◌, Bytes, codes}
use diarion_core.Prelude.Result.{Result, ok, err}
use diarion_core.Db.Models.{Agent, AgentKey}
use diarion_core.Db.Agents.{
  UpdateAgentProfileParams, soft_delete_agent, update_agent_profile, list_agents_by_owner,
}
use diarion_core.Db.Keys.{get_active_key_for_agent}
use diarion_core.Db.World.{
  World, DbError, Reply, http_error, no_body, json, Nothing, Handler, call, pure, require,
  or_return, ◌>>=◌, serve,
}
use diarion_core.Middleware.{AuthUser, require_user}
use diarion_core.Agents.{AgentResponse, to_response, internal_error, load_owned_agent}

-- The fingerprint that is shown: empty where no key is active or the statement fails.
unfoldable pub fingerprint_of : Result DbError AgentKey → Bytes
fingerprint_of (ok k) = k.fingerprint
fingerprint_of (err e) = []

-- The loop of List, with a statement for each row.
unfoldable pub respond_all : {X : Type 0} → List Agent → Handler X (List AgentResponse)
respond_all [] = pure []
respond_all (a ∷ rows) = call (get_active_key_for_agent a.id) >>= λ active.
    respond_all rows >>= λ rest. pure (to_response a (fingerprint_of active) ∷ rest)

abbrev pub list_steps :
    Option AuthUser → Handler (Reply (List AgentResponse)) (Reply (List AgentResponse))
list_steps attached = do
  u ← require_user attached
  listed ← call (list_agents_by_owner u.user.id)
  rows ← or_return internal_error listed
  out ← respond_all rows
  pure (json 200 out)

unfoldable pub list : Option AuthUser → World → Reply (List AgentResponse) × World
list attached w = serve (list_steps attached w)

abbrev pub get_steps : Option AuthUser → Bytes → Handler (Reply AgentResponse) (Reply AgentResponse)
get_steps attached handle = do
  a ← load_owned_agent attached handle
  active ← call (get_active_key_for_agent a.id)
  pure (json 200 (to_response a (fingerprint_of active)))

unfoldable pub get : Option AuthUser → Bytes → World → Reply AgentResponse × World
get attached handle w = serve (get_steps attached handle w)

-- `none` is an absent member.
pub record UpdateRequest : Type 0 where
  pub display_name : Option Bytes
  pub bio : Option Bytes
  pub avatar_url : Option Bytes
  pub show_operator_publicly : Option Bool
  pub stack_provider : Option Bytes
  pub stack_family : Option Bytes
  pub stack_harness : Option Bytes
  pub stack_notes : Option Bytes

abbrev pub or_old : {A : Type 0} → Option A → A → A
or_old (some a) old = a
or_old none old = old

abbrev pub or_old_opt : {A : Type 0} → Option A → Option A → Option A
or_old_opt (some a) old = some a
or_old_opt none old = old

unfoldable pub patch : UpdateRequest → Agent → UpdateAgentProfileParams
patch req a = record {
  id = a.id;
  display_name = or_old req.display_name a.display_name;
  bio = or_old_opt req.bio a.bio;
  avatar_url = or_old_opt req.avatar_url a.avatar_url;
  show_operator_publicly = or_old req.show_operator_publicly a.show_operator_publicly;
  stack_provider = or_old_opt req.stack_provider a.stack_provider;
  stack_family = or_old_opt req.stack_family a.stack_family;
  stack_harness = or_old_opt req.stack_harness a.stack_harness;
  stack_notes = or_old_opt req.stack_notes a.stack_notes;
}

abbrev pub update_steps :
    Option AuthUser
    → Bytes
    → Option UpdateRequest
    → Handler (Reply AgentResponse) (Reply AgentResponse)
update_steps attached handle body = do
  a ← load_owned_agent attached handle
  req ← require body (http_error 400 "invalid JSON body")
  changed ← call (update_agent_profile (patch req a))
  updated ← or_return internal_error changed
  active ← call (get_active_key_for_agent updated.id)
  pure (json 200 (to_response updated (fingerprint_of active)))

unfoldable pub update :
    Option AuthUser → Bytes → Option UpdateRequest → World → Reply AgentResponse × World
update attached handle body w = serve (update_steps attached handle body w)

abbrev pub delete_steps : Option AuthUser → Bytes → Handler (Reply Nothing) (Reply Nothing)
delete_steps attached handle = do
  a ← load_owned_agent attached handle
  binned ← call (soft_delete_agent a.id (some (codes "user-deleted")))
  done ← or_return internal_error binned
  pure (no_body 204)

unfoldable pub delete : Option AuthUser → Bytes → World → Reply Nothing × World
delete attached handle w = serve (delete_steps attached handle w)
