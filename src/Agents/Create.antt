-- ===== src/Agents/Create.antt =====
-- internal/handlers/agents/create.go.
use diarion_core.Prelude.{ℕ, Bool, not, Option, none, some, [], ◌∷◌, Bytes, codes}
use diarion_core.Prelude.Result.{Result, ok, err}
use diarion_core.Stdlib.Strings.{trim_space}
use diarion_core.Db.Models.{Agent, AgentKey}
use diarion_core.Db.Agents.{InsertAgentParams, insert_agent, soft_delete_agent}
use diarion_core.Db.Keys.{insert_agent_key}
use diarion_core.Db.World.{
  World, DbError, unique_violation, Reply, http_error, json, Handler, call, pure, return, require,
  guard, or_return, ◌>>=◌, ◌>>◌, serve,
}
use diarion_core.Keys.{Issued, custody_managed}
use diarion_core.Handle.{HandleError, too_short, too_long, bad_pattern, reserved_handle, validate}
use diarion_core.Middleware.{AuthUser, require_user}
use diarion_core.Agents.{
  Handlers, Drawn, AgentResponse, to_response, is_empty, shown_key, issue_or_return, key_params,
  is_custody,
}

pub record CreateRequest : Type 0 where
  pub handle : Bytes
  pub display_name : Bytes
  pub bio : Option Bytes
  pub avatar_url : Option Bytes
  pub show_operator_publicly : Bool
  pub key_custody : Bytes
  pub stack_provider : Option Bytes
  pub stack_family : Option Bytes
  pub stack_harness : Option Bytes
  pub stack_notes : Option Bytes

pub record CreateResponse : Type 0 where
  pub agent : AgentResponse
  pub private_key : Option Bytes

-- The text of the error of Validate.
unfoldable pub handle_error : {R : Type 0} → HandleError → Reply R
handle_error too_short = http_error 400 "invalid handle: too short"
handle_error too_long = http_error 400 "invalid handle: too long"
handle_error bad_pattern =
    http_error 400
      "invalid handle: must be lowercase ASCII alnum + hyphens, no leading/trailing hyphen"
handle_error reserved_handle = http_error 400 "invalid handle: reserved handle"

abbrev pub refuse_handle : {R : Type 0} → Option HandleError → Handler (Reply R) (Unit {0})
refuse_handle none = pure tt
refuse_handle (some e) = return (handle_error e)

-- An empty custody is the managed one.
unfoldable pub custody_of : Bytes → Bytes
custody_of [] = custody_managed
custody_of (c ∷ s) = c ∷ s

-- Every unique violation, 23505, is taken for one of the handle.
unfoldable pub insert_error : {R : Type 0} → DbError → Reply R
insert_error (unique_violation c) = http_error 409 "handle already taken"
insert_error e = http_error 500 "internal error"

abbrev pub agent_params : ℕ → CreateRequest → InsertAgentParams
agent_params owner req = record {
  owner_id = owner;
  handle = trim_space req.handle;
  display_name = trim_space req.display_name;
  bio = req.bio;
  avatar_url = req.avatar_url;
  show_operator_publicly = req.show_operator_publicly;
  key_custody = custody_of req.key_custody;
  stack_provider = req.stack_provider;
  stack_family = req.stack_family;
  stack_harness = req.stack_harness;
  stack_notes = req.stack_notes;
}

-- Without its key the new agent goes into the bin, as far as that succeeds.
abbrev pub or_take_back : {R : Type 0} → ℕ → Result DbError AgentKey → Handler (Reply R) AgentKey
or_take_back agent (ok key) = pure key
or_take_back agent (err e) =
    call (soft_delete_agent agent (some (codes "create: key insert failed")))
    >> return (http_error 500 "internal error")

abbrev pub create_response : Agent → Issued → Bytes → CreateResponse
create_response a issued custody = record {
  agent = to_response a issued.fingerprint;
  private_key = shown_key custody issued;
}

abbrev pub create_steps :
    Handlers
    → Drawn
    → Option AuthUser
    → Option CreateRequest
    → Handler (Reply CreateResponse) (Reply CreateResponse)
create_steps h d attached body = do
  u ← require_user attached
  req ← require body (http_error 400 "invalid JSON body")
  guard (not (is_empty (trim_space req.display_name))) (http_error 400 "display_name is required")
  refuse_handle (validate (trim_space req.handle))
  guard (is_custody (custody_of req.key_custody))
      (http_error 400 "key_custody must be 'managed' or 'self'")
  issued ← issue_or_return h d (custody_of req.key_custody)
  added ← call (insert_agent (agent_params u.user.id req))
  agent ← or_return insert_error added
  keyed ← call (insert_agent_key (key_params agent.id issued))
  key ← or_take_back agent.id keyed
  pure (json 201 (create_response agent issued (custody_of req.key_custody)))

unfoldable pub create :
    Handlers → Drawn → Option AuthUser → Option CreateRequest → World → Reply CreateResponse × World
create h d attached body w = serve (create_steps h d attached body w)
