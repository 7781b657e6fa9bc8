-- ===== src/Agents/Switched.antt =====
-- What SwitchCustody leaves when nobody else is active.
use diarion_core.Prelude.{
  ℕ, ◌≡◌, refl, sym, ap, subst, ◌∙◌, true, false, not, Option, some, [], ◌∷◌, arith, Bytes,
  bytes_eq, ◌==◌, Bool-cases, inl, inr,
}
use diarion_core.Prelude.Result.{Result, ok}
use diarion_core.Db.Models.{Db, Time, Agent, AgentKey}
use diarion_core.Db.Table.{select_where, first_where, update_where, first_where-update_where}
use diarion_core.Db.Agents.{update_agent_custody}
use diarion_core.Db.Keys.{get_active_key_for_agent}
use diarion_core.Db.Keys.Active.{active_of}
use diarion_core.Db.World.{
  World, DbError, Reply, http_error, json, go, call, call-alone, read-eq-ok,
}
use diarion_core.Db.World.Ran.{Ran, call-Ran}
use diarion_core.Db.Outcome.{
  Outcome, bind_step, require_step, or_return_step, call_step, guard_step,
}
use diarion_core.Keys.{Issued}
use diarion_core.Middleware.{AuthUser}
use diarion_core.Entries.Accepted.{IsRefusal, Refuses, serve_or_refused}
use diarion_core.Agents.{Handlers, Drawn, load_owned_agent, internal_error, is_custody}
use diarion_core.Agents.Rotate.{
  SwitchCustodyResponse, switch_response, switch_custody_steps, switch_custody, replace_keys,
}
use diarion_core.Agents.Owned.{
  Owned, Replaced, IsIssued, load_owned_agent-Owned, issue_step, replace_keys-Replaced, KeptApart,
  issued-KeptApart,
}
use diarion_core.Agents.Rotated.{Replaced-alone, Owned-alone, live_agent}

module _ (h : Handlers) (d : Drawn) (attached : Option AuthUser) (handle : Bytes)
    (body : Option Bytes) (w : World) where
  -- An answer of SwitchCustody.
  pub data Switched : Reply SwitchCustodyResponse → World → Type 0 where
    refused : {w' : World} (x : Reply SwitchCustodyResponse) → IsRefusal x → Switched x w'
    switched :
        {w' : World} (a updated : Agent) (i : Issued) (key : AgentKey) (target : Bytes)
        (loaded keyed changed : World)
        → body ≡ some target
        → Owned attached handle w a loaded
        → is_custody target ≡ true
        → bytes_eq target a.key_custody ≡ false
        → IsIssued h d target i
        → Replaced a i loaded key keyed
        → Ran (update_agent_custody a.id target) keyed updated changed
        → (r : Result DbError AgentKey) × (call {X = Reply SwitchCustodyResponse}
              (get_active_key_for_agent updated.id)
              changed
            ≡ (go r, w'))
        → Switched (json 200 (switch_response updated i target)) w'

  switch_custody_steps-Switched :
      Outcome Switched
        (Refuses SwitchCustodyResponse)
        (switch_custody_steps h d attached handle body w)
  switch_custody_steps-Switched =
      let X = SwitchCustodyResponse in
      let S = Refuses X in
      bind_step _ S (λ a w1. Owned attached handle w a w1)
        (load_owned_agent {R = X} attached handle) _ w (load_owned_agent-Owned X attached handle w)
        (λ a w1 own.
          require_step _ S body (http_error 400 "invalid JSON body") _ w1 (omega arith)
            (λ target is_target.
              guard_step _ S (is_custody target) (http_error 400 "to must be 'managed' or 'self'") _
                w1 (omega arith)
                (λ known.
                  guard_step _ S (not (bytes_eq target a.key_custody))
                    (http_error 400 "agent is already in that custody mode") _ w1 (omega arith)
                    (λ new. issue_step X _ h d target _ w1 (λ i is_issued.
                      bind_step _ S (λ key w2. Replaced a i w1 key w2) (replace_keys {R = X} a.id i)
                        _ w1 (replace_keys-Replaced X a i w1)
                        (λ key w2 replaced.
                          call_step _ S (update_agent_custody a.id target) _ w2
                            (λ changed w3 at_changed.
                              or_return_step _ S internal_error changed _ w3 (λ e. omega arith)
                                (λ updated is_updated.
                                  call_step _ S (get_active_key_for_agent updated.id) _ w3
                                    (λ r w4 at_seen.
                                      switched a updated i key target w1 w2 w3 is_target own known
                                        (ground (arith, new)) is_issued replaced
                                        (call-Ran {X = Reply X} (update_agent_custody a.id target)
                                          w2 (rw is_updated at at_changed))
                                        (r, at_seen))))))))))

  switch_custody-Switched :
      (reply : Reply SwitchCustodyResponse) (w' : World)
      → switch_custody h d attached handle body w ≡ (reply, w')
      → Switched reply w'
  unfolding switch_custody
  switch_custody-Switched reply w' e =
      serve_or_refused SwitchCustodyResponse Switched
        (switch_custody_steps h d attached handle body w) (λ x w1 r. refused x r)
        switch_custody_steps-Switched e

abbrev pub with_custody : Bytes → Time → Agent → Agent
with_custody target now b = record b { key_custody = target; updated_at = now }

update_agent_custody-left :
    (id : ℕ) (target : Bytes) (now : Time) (db : Db) {a : Agent} {db' : Db}
    → update_agent_custody id target now db ≡ (ok a, db')
    → (db'
        ≡ record db { agents = update_where (λ b. b.id == id) (with_custody target now) db.agents })
      × (a.key_custody ≡ target)
unfolding update_agent_custody
update_agent_custody-left id target now db h = elim (Bool-cases (is_custody target)) [
  | inl known ↦
      let k = rw known at h in
      let (hit, same) =
        read-eq-ok
          (first_where (λ b. b.id == id)
            (update_where (λ b. b.id == id) (with_custody target now) db.agents))
          _ k in
      let (x, made) =
        first_where-update_where (λ b. b.id == id) (with_custody target now) db.agents _ hit in
      (sym same, ap (λ (b : Agent). b.key_custody) made)
  | inr other ↦ let k = rw other at h in cc
]

-- A change of the custody of an agent of the user.
pub record SwitchedAlone (h : Handlers) (d : Drawn) (attached : Option AuthUser) (handle : Bytes)
    (body : Option Bytes) (w : World) (r : SwitchCustodyResponse) (w' : World) : Type 0 where
  pub user : AuthUser
  pub is_user : attached ≡ some user
  pub agent : Agent
  pub named : live_agent handle w.db ≡ some agent
  pub own : agent.owner_id ≡ user.user.id
  pub target : Bytes
  pub asked : body ≡ some target
  pub new : bytes_eq target agent.key_custody ≡ false
  pub key : AgentKey
  pub only : select_where (active_of agent.id) w'.db.agent_keys ≡ key ∷ []
  pub agents_left :
      w'.db.agents ≡ update_where (λ b. b.id == agent.id) (with_custody target w.now) w.db.agents
  pub shown : (r.agent.key_custody ≡ target) × (r.agent.fingerprint ≡ key.fingerprint)
  pub apart : KeptApart h d target key.encrypted_private_key r.private_key

-- When SwitchCustody answers 200 and no other request is active, the handle names a live agent of
-- the user of the request whose custody was another, the rows of that agent now have the custody
-- asked for, and the key whose fingerprint is shown is its only active key. For managed custody
-- that key is stored with the envelope in which Wrap sealed the private key drawn, which is not
-- shown; for self custody no private key is stored.
pub switch_custody-SwitchedAlone :
    (h : Handlers) (d : Drawn) (attached : Option AuthUser) (handle : Bytes) (body : Option Bytes)
    (w : World) (r : SwitchCustodyResponse) (w' : World)
    → w.schedule ≡ []
    → switch_custody h d attached handle body w ≡ (json 200 r, w')
    → SwitchedAlone h d attached handle body w r w'
unfolding get_active_key_for_agent
switch_custody-SwitchedAlone h d attached handle body w r w' alone e =
    from (json 200 r) refl (switch_custody-Switched h d attached handle body w (json 200 r) w' e)
  where
    from :
        (reply : Reply SwitchCustodyResponse)
        → reply ≡ json 200 r
        → Switched h d attached handle body w reply w'
        → SwitchedAlone h d attached handle body w r w'
    from reply q (refused x n) = absurd (subst IsRefusal q n)
    from reply q
          (switched a updated i key target loaded keyed changed is_target own known new is_issued
            replaced ran
            (seen, at_seen)) =
        let (hit, same, t, alone1) = Owned-alone own alone in
        let m = Replaced-alone replaced alone1 in
        let (ran', t1, alone2) = ran.alone m.alone in
        let (left, custody) = update_agent_custody-left a.id target keyed.now keyed.db ran' in
        let (seen', t2, _) =
          call-alone (get_active_key_for_agent updated.id) changed alone2 at_seen in
        let now_same : keyed.now ≡ w.now = m.same_time ∙ t in
        let last : w'.db ≡ changed.db = sym (ap (λ p. p.1) seen') in
        let p : switch_response updated i target ≡ r = cc in
        let made : w'.db ≡ record keyed.db {
          agents = update_where (λ b. b.id == a.id) (with_custody target w.now) keyed.db.agents;
        } =
          last ∙ rw now_same at left in
        record {
          user = own.user;
          is_user = own.is_user;
          agent = a;
          named = hit;
          own = own.own;
          target = target;
          asked = is_target;
          new = new;
          key = key;
          only = rw made m.only_key.only;
          agents_left = rw (made, m.only_key.agents_same, same) refl;
          shown = rw (← p) (custody, sym m.fingerprint);
          apart = rw (← p, m.encrypted) (issued-KeptApart h d target i is_issued);
        }
