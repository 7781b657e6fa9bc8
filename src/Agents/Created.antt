-- ===== src/Agents/Created.antt =====
-- What Create has gone through, with other requests and failures at any moment.
use diarion_core.Prelude.{ℕ, ◌≡◌, refl, false, not, Option, none, some, arith, Bytes, codes}
use diarion_core.Prelude.Result.{Result, ok, err}
use diarion_core.Stdlib.Strings.{trim_space}
use diarion_core.Db.Models.{Agent, AgentKey}
use diarion_core.Db.Agents.{insert_agent, soft_delete_agent}
use diarion_core.Db.Agents.Inserted.{insert_agent-owner}
use diarion_core.Db.Keys.{insert_agent_key}
use diarion_core.Db.Keys.Active.{insert_agent_key-Inserted}
use diarion_core.Db.World.{
  World, DbError, no_rows, fk_violation, check_violation, connection, unique_violation, Reply,
  http_error, json, Handler, call-goes, seen, ◌>>=◌,
}
use diarion_core.Db.World.Ran.{Ran, call-Ran}
use diarion_core.Db.Outcome.{Outcome, require_step, or_return_step, call_step, guard_step}
use diarion_core.Keys.{Issued}
use diarion_core.Handle.{HandleError, too_short, too_long, bad_pattern, reserved_handle, validate}
use diarion_core.Middleware.{AuthUser}
use diarion_core.Entries.Accepted.{IsRefusal, Refuses, serve_or_refused}
use diarion_core.Agents.{Handlers, Drawn, is_empty, key_params, is_custody, shown_key}
use diarion_core.Agents.Create.{
  CreateRequest, CreateResponse, handle_error, refuse_handle, custody_of, insert_error,
  agent_params, or_take_back, create_response, create_steps, create,
}
use diarion_core.Agents.Owned.{IsIssued, KeptApart, issued-KeptApart, issue_step}

handle_error-IsRefusal : (R : Type 0) (e : HandleError) → IsRefusal (handle_error {R = R} e)
unfolding handle_error
handle_error-IsRefusal R too_short = omega arith
handle_error-IsRefusal R too_long = omega arith
handle_error-IsRefusal R bad_pattern = omega arith
handle_error-IsRefusal R reserved_handle = omega arith

insert_error-IsRefusal : (R : Type 0) (e : DbError) → IsRefusal (insert_error {R = R} e)
unfolding insert_error
insert_error-IsRefusal R no_rows = omega arith
insert_error-IsRefusal R fk_violation = omega arith
insert_error-IsRefusal R check_violation = omega arith
insert_error-IsRefusal R connection = omega arith
insert_error-IsRefusal R (unique_violation c) = omega arith

-- A new agent of the user of the request, with its key.
pub record NewAgent (attached : Option AuthUser) (req : CreateRequest) (w : World) (agent : Agent)
    (issued : Issued) (key : AgentKey) (w' : World) : Type 0 where
  pub user : AuthUser
  pub is_user : attached ≡ some user
  pub has_name : is_empty (trim_space req.display_name) ≡ false
  pub valid_handle : validate (trim_space req.handle) ≡ none
  pub between : World
  pub added : Ran (insert_agent (agent_params user.user.id req)) w agent between
  pub owned : agent.owner_id ≡ user.user.id
  pub keyed : Ran (insert_agent_key (key_params agent.id issued)) between key w'

module _ (h : Handlers) (d : Drawn) (attached : Option AuthUser) where
  -- An answer of Create.
  pub data Created (body : Option CreateRequest) (w : World)
      : Reply CreateResponse → World → Type 0 where
    refused : {w' : World} (x : Reply CreateResponse) → IsRefusal x → Created body w x w'
    created :
        {w' : World} (req : CreateRequest) (agent : Agent) (issued : Issued) (key : AgentKey)
        → body ≡ some req
        → IsIssued h d (custody_of req.key_custody) issued
        → NewAgent attached req w agent issued key w'
        → KeptApart h d
            (custody_of req.key_custody)
            key.encrypted_private_key
            (create_response agent issued (custody_of req.key_custody)).private_key
        → Created body w (json 201 (create_response agent issued (custody_of req.key_custody))) w'

module _ (X : Type 0) where
  refuse_handle_step :
      {B : Type 0} (R : B → World → Type 0) (o : Option HandleError)
      (f : Unit {0} → Handler (Reply X) B) (w : World)
      → (o ≡ none → Outcome R (Refuses X) (f tt w))
      → Outcome R (Refuses X) ((refuse_handle o >>= f) w)
  refuse_handle_step R none f w k = k refl
  refuse_handle_step R (some e) f w k = handle_error-IsRefusal X e

  take_back_step :
      {B : Type 0} (R : B → World → Type 0) (agent : ℕ) (r : Result DbError AgentKey)
      (f : AgentKey → Handler (Reply X) B) (w : World)
      → ((key : AgentKey) → r ≡ ok key → Outcome R (Refuses X) (f key w))
      → Outcome R (Refuses X) ((or_take_back agent r >>= f) w)
  take_back_step R agent (ok key) f w k = k key refl
  take_back_step R agent (err e) f w k =
      let reason : Option Bytes = some (codes "create: key insert failed") in
      let (r, w1, at) = call-goes {X = Reply X} (soft_delete_agent agent reason) w in
      rw at (omega arith)

create_steps-Created :
    (h : Handlers) (d : Drawn) (attached : Option AuthUser) (body : Option CreateRequest)
    (w : World)
    → Outcome
        (Created h d attached body w)
        (Refuses CreateResponse)
        (create_steps h d attached body w)
create_steps-Created h d attached body w =
    let X = CreateResponse in
    let S = Refuses X in
    require_step _ S attached (http_error 401 "unauthorized") _ w (omega arith) (λ u is_user.
      require_step _ S body (http_error 400 "invalid JSON body") _ w (omega arith) (λ req is_req.
        guard_step _ S (not (is_empty (trim_space req.display_name)))
          (http_error 400 "display_name is required") _ w (omega arith)
          (λ has_name. refuse_handle_step X _ (validate (trim_space req.handle)) _ w (λ valid.
            guard_step _ S (is_custody (custody_of req.key_custody))
              (http_error 400 "key_custody must be 'managed' or 'self'") _ w (omega arith)
              (λ known. issue_step X _ h d (custody_of req.key_custody) _ w (λ issued is_issued.
                call_step _ S (insert_agent (agent_params u.user.id req)) _ w (λ added w1 at_added.
                  or_return_step _ S insert_error added _ w1 (insert_error-IsRefusal X)
                    (λ agent is_agent.
                      call_step _ S (insert_agent_key (key_params agent.id issued)) _ w1
                        (λ keyed w2 at_keyed. take_back_step X _ agent.id keyed _ w2 (λ key is_key.
                          let k : Ran (insert_agent_key (key_params agent.id issued)) w1 key w2 =
                            call-Ran {X = Reply X} (insert_agent_key (key_params agent.id issued))
                              w1 (rw is_key at at_keyed) in
                          let a : Ran (insert_agent (agent_params u.user.id req)) w agent w1 =
                            call-Ran {X = Reply X} (insert_agent (agent_params u.user.id req)) w
                              (rw is_agent at at_added) in
                          created req agent issued key is_req is_issued
                            (record {
                              user = u;
                              is_user = is_user;
                              has_name = ground (arith, has_name);
                              valid_handle = valid;
                              between = w1;
                              added = a;
                              owned =
                                  insert_agent-owner (agent_params u.user.id req) w1.now (seen w)
                                    a.ran;
                              keyed = k;
                            })
                            (apart h d req issued key is_issued
                              (insert_agent_key-Inserted (key_params agent.id issued) w2.now
                                (seen w1) k.ran).encrypted)))))))))))
  where
    apart :
        (h : Handlers) (d : Drawn) (req : CreateRequest) (issued : Issued) (key : AgentKey)
        → IsIssued h d (custody_of req.key_custody) issued
        → key.encrypted_private_key ≡ issued.encrypted_private_key
        → KeptApart h d
            (custody_of req.key_custody)
            key.encrypted_private_key
            (shown_key (custody_of req.key_custody) issued)
    apart h d req issued key is_issued e =
        rw e (issued-KeptApart h d (custody_of req.key_custody) issued is_issued)

-- Whatever comes in between, Create answers with an error status, or with 201: then a user is
-- attached, the trimmed display name is not empty, the trimmed handle is one that Validate accepts,
-- the first statement inserted an agent row of that user with the fields of the request, which is
-- the one shown, and the next a row for a fresh key of that agent. For managed custody that row has
-- the envelope in which Wrap sealed the private key drawn, which is not shown; for self custody no
-- private key is stored.
pub create-Created :
    (h : Handlers) (d : Drawn) (attached : Option AuthUser) (body : Option CreateRequest)
    (w : World) (reply : Reply CreateResponse) (w' : World)
    → create h d attached body w ≡ (reply, w')
    → Created h d attached body w reply w'
unfolding create
create-Created h d attached body w reply w' e =
    serve_or_refused CreateResponse (Created h d attached body w) (create_steps h d attached body w)
      (λ x w1 r. refused x r) (create_steps-Created h d attached body w) e
