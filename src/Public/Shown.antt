-- ===== src/Public/Shown.antt =====
-- What the public page of an agent shows, with other requests and failures at any moment.
use diarion_core.Prelude.{
  ℕ, ◌≡◌, refl, Bool, true, false, not, Option, none, some, subst, List, [], ◌∷◌, All, head?, arith,
  Bytes, Bool-cases, inl, inr,
}
use diarion_core.Prelude.Result.{Result, ok, err}
use diarion_core.Db.Models.{Db, Time, Agent, AgentKey, User}
use diarion_core.Db.Table.{select_where, order_by}
use diarion_core.Db.Table.Page.{select_where-holds}
use diarion_core.Db.Table.Sorted.{order_by-All}
use diarion_core.Db.Keys.Active.{active_of}
use diarion_core.Db.Agents.{is_some, get_agent_by_handle}
use diarion_core.Db.Keys.{newer_key, get_active_key_for_agent}
use diarion_core.Db.Users.{get_user_by_id}
use diarion_core.Db.World.{World, DbError, Reply, http_error, json, go, call, seen, read-eq-ok}
use diarion_core.Db.World.Ran.{Runs, Ran, call-Runs, call-Ran}
use diarion_core.Db.Outcome.{Outcome, bind_step, or_return_step, call_step, guard_step}
use diarion_core.Middleware.{is_barred}
use diarion_core.Entries.{missing_or_internal}
use diarion_core.Entries.Post.{is_empty}
use diarion_core.Entries.Accepted.{
  IsRefusal, Refuses, serve_or_refused, missing_or_internal-IsRefusal, not_some,
}
use diarion_core.Public.{
  find_agent, OperatorBlock, PublicAgentResponse, fingerprint_of, operator_of, load_operator,
  agent_response, get_agent_steps, get_agent,
}

-- The agent of a handle when it was read, which is not suspended.
pub record IsPublic (handle : Bytes) (w : World) (agent : Agent) (w' : World) : Type 0 where
  pub found : Ran (get_agent_by_handle handle) w agent w'
  pub free : agent.suspended_at ≡ none

find_agent-IsPublic :
    (R : Type 0) (handle : Bytes) (w : World)
    → Outcome
        (λ a w'. IsPublic handle w a w')
        (Refuses R)
        (find_agent {R = R} (http_error 404 "agent not found") handle w)
unfolding find_agent
find_agent-IsPublic R handle w =
    let S = Refuses R in
    call_step _ S (get_agent_by_handle handle) _ w (λ found w1 at_found.
      or_return_step _ S (missing_or_internal (http_error 404 "agent not found")) found _ w1
        (λ e. missing_or_internal-IsRefusal (http_error 404 "agent not found") e (omega arith))
        (λ a is_a.
          guard_step _ S (not (is_some a.suspended_at)) (http_error 404 "agent not found") _ w1
            (omega arith)
            (λ free. record {
              found = call-Ran {X = Reply R} (get_agent_by_handle handle) w (rw is_a at at_found);
              free = not_some a.suspended_at free;
            })))

-- The fingerprint is that of the key that the statement run in `w` found, or there is none.
pub data KeyShown (agent : Agent) (w w' : World) : Bytes → Type 0 where
  no_key :
      (e : DbError) → Runs (get_active_key_for_agent agent.id) w (err e) w' → KeyShown agent w w' []
  active_key :
      (k : AgentKey)
      → Ran (get_active_key_for_agent agent.id) w k w'
      → (active_of agent.id k ≡ true)
      → KeyShown agent w w' k.fingerprint

-- The operator is only shown for an agent that wants it, and only a user whom the statement run in
-- `w` found to be neither suspended nor deleted.
pub data OperatorShown (agent : Agent) (w w' : World) : Option OperatorBlock → Type 0 where
  hidden : OperatorShown agent w w' none
  owner :
      (u : User)
      → agent.show_operator_publicly ≡ true
      → Ran (get_user_by_id agent.owner_id) w u w'
      → (u.suspended_at ≡ none) × (u.deleted_at ≡ none)
      → OperatorShown agent w w'
          (some (record { display_name = u.display_name; avatar_url = u.avatar_url }))

get_active_key-active :
    (agent : ℕ) (now : Time) (db : Db) {k : AgentKey} {db' : Db}
    → get_active_key_for_agent agent now db ≡ (ok k, db')
    → active_of agent k ≡ true
unfolding get_active_key_for_agent
get_active_key-active agent now db {k} h =
    let rows = select_where (active_of agent) db.agent_keys in
    let (hit, _) = read-eq-ok (head? (order_by newer_key rows)) db h in
    head-All (order_by newer_key rows)
      (order_by-All newer_key (λ k. active_of agent k ≡ true) rows
        (select_where-holds (active_of agent) db.agent_keys))
      hit
  where
    head-All :
        (keys : List AgentKey)
        → All (λ k. active_of agent k ≡ true) keys
        → head? keys ≡ some k
        → active_of agent k ≡ true
    head-All [] all e = cc
    head-All (x ∷ keys) (px, all) e =
        let same : x ≡ k = cc in subst (λ y. active_of agent y ≡ true) same px

key-KeyShown :
    {X : Type 0} (agent : Agent) (r : Result DbError AgentKey) (w w' : World)
    → call {X = X} (get_active_key_for_agent agent.id) w ≡ (go r, w')
    → KeyShown agent w w' (fingerprint_of r)
key-KeyShown {X} agent (ok k) w w' h =
    let f = call-Ran {X = X} (get_active_key_for_agent agent.id) w h in
    active_key k f (get_active_key-active agent.id w'.now (seen w) f.ran)
key-KeyShown {X} agent (err e) w w' h =
    no_key e (call-Runs {X = X} (get_active_key_for_agent agent.id) w h)

not_barred : (u : User) → is_barred u ≡ false → (u.suspended_at ≡ none) × (u.deleted_at ≡ none)
not_barred u h = (not_some u.suspended_at (ground arith), not_some u.deleted_at (ground arith))

operator_of-OperatorShown :
    {X : Type 0} (agent : Agent) (r : Result DbError User) (w w' : World)
    → agent.show_operator_publicly ≡ true
    → call {X = X} (get_user_by_id agent.owner_id) w ≡ (go r, w')
    → OperatorShown agent w w' (operator_of r)
operator_of-OperatorShown agent (err e) w w' wanted h = hidden
operator_of-OperatorShown {X} agent (ok u) w w' wanted h = elim (Bool-cases (is_barred u)) [
  | inl b ↦ rw b hidden
  | inr b ↦
      rw b (owner u wanted (call-Ran {X = X} (get_user_by_id agent.owner_id) w h) (not_barred u b))
]

load_operator-OperatorShown :
    (R : Type 0) (agent : Agent) (b : Bool) (w : World)
    → agent.show_operator_publicly ≡ b
    → Outcome
        (λ o w'. OperatorShown agent w w' o)
        (Refuses R)
        (load_operator {X = Reply R} b agent.owner_id w)
load_operator-OperatorShown R agent false w wanted = hidden
load_operator-OperatorShown R agent true w wanted =
    call_step (λ o w'. OperatorShown agent w w' o) (Refuses R) (get_user_by_id agent.owner_id) _ w
      (λ r w1 h. operator_of-OperatorShown {X = Reply R} agent r w w1 wanted h)

-- An answer of GetAgent.
pub data Shown (handle : Bytes) (w : World) : Reply PublicAgentResponse → World → Type 0 where
  refused : {w' : World} (x : Reply PublicAgentResponse) → IsRefusal x → Shown handle w x w'
  shown :
      {w' : World} (agent : Agent) (w1 w2 : World) (fingerprint : Bytes)
      (operator : Option OperatorBlock)
      → IsPublic handle w agent w1
      → KeyShown agent w1 w2 fingerprint
      → OperatorShown agent w2 w' operator
      → Shown handle w (json 200 (agent_response agent fingerprint operator)) w'

get_agent_steps-Shown :
    (handle : Bytes) (w : World)
    → Outcome (Shown handle w) (Refuses PublicAgentResponse) (get_agent_steps handle w)
get_agent_steps-Shown handle w =
    let X = PublicAgentResponse in
    let S = Refuses X in
    guard_step _ S (not (is_empty handle)) (http_error 400 "missing handle") _ w (omega arith) (λ _.
      bind_step _ S (λ a w1. IsPublic handle w a w1)
        (find_agent {R = X} (http_error 404 "agent not found") handle) _ w
        (find_agent-IsPublic X handle w)
        (λ a w1 public. call_step _ S (get_active_key_for_agent a.id) _ w1 (λ active w2 at_key.
          bind_step _ S (λ o w3. OperatorShown a w2 w3 o)
            (load_operator a.show_operator_publicly a.owner_id) _ w2
            (load_operator-OperatorShown X a a.show_operator_publicly w2 refl)
            (λ o w3 operator.
              shown a w1 w2 (fingerprint_of active) o public
                (key-KeyShown {X = Reply X} a active w1 w2 at_key) operator))))

-- Whatever comes in between, GetAgent answers with an error status, or with 200: then the first
-- statement found the agent of the handle that is shown, and it is not suspended; the fingerprint is
-- that of the active key of the agent that the next statement found, or empty if that one failed;
-- and an operator is only shown for an agent that wants it, and then it is its owner, whom the
-- statement after that found to be neither suspended nor deleted.
pub get_agent-Shown :
    (handle : Bytes) (w : World) (reply : Reply PublicAgentResponse) (w' : World)
    → get_agent handle w ≡ (reply, w')
    → Shown handle w reply w'
unfolding get_agent
get_agent-Shown handle w reply w' e =
    serve_or_refused PublicAgentResponse (Shown handle w) (get_agent_steps handle w)
      (λ x w1 r. refused x r) (get_agent_steps-Shown handle w) e
