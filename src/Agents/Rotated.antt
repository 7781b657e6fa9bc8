-- ===== src/Agents/Rotated.antt =====
-- What RotateKey and SwitchCustody leave: with other requests in between, and alone.
use diarion_core.Prelude.{
  ℕ, ◌≡◌, refl, sym, ap, subst, ◌∙◌, true, not, ◌&&◌, Option, some, [], ◌∷◌, Bytes, bytes_eq,
}
use diarion_core.Prelude.Result.{ok}
use diarion_core.Db.Models.{Db, Agent, AgentKey}
use diarion_core.Db.Table.{select_where, first_where, first_where-All, select_where-eq-one}
use diarion_core.Db.Agents.{is_some, same_handle, get_agent_by_handle}
use diarion_core.Db.Keys.Active.{
  active_of, other_than, active_of-holds, insert_agent_key-Inserted, revoke_all-left, Inserted-only,
  Inserted-others,
}
use diarion_core.Db.World.{World, Reply, json, Nothing, go, read-eq-ok}
use diarion_core.Db.Outcome.{Outcome, bind_step}
use diarion_core.Keys.{Issued}
use diarion_core.Middleware.{AuthUser}
use diarion_core.Entries.Accepted.{IsRefusal, Refuses, serve_or_refused}
use diarion_core.Signing.Verifier.{AgentKeyRecord}
use diarion_core.Signing.Fetcher.{db_fetch}
use diarion_core.Signing.ActiveKey.{db_fetch-ActiveKey}
use diarion_core.Agents.{Handlers, Drawn, load_owned_agent, key_params}
use diarion_core.Agents.Rotate.{
  RotateKeyResponse, rotate_response, rotate_key_steps, rotate_key, replace_keys,
}
use diarion_core.Agents.Owned.{
  Owned, Replaced, IsIssued, load_owned_agent-Owned, issue_step, replace_keys-Replaced,
}

module _ (h : Handlers) (d : Drawn) (attached : Option AuthUser) (handle : Bytes) (w : World) where
  -- An answer of RotateKey.
  pub data Rotated : Reply RotateKeyResponse → World → Type 0 where
    refused : {w' : World} (x : Reply RotateKeyResponse) → IsRefusal x → Rotated x w'
    rotated :
        {w' : World} (a : Agent) (i : Issued) (key : AgentKey) (loaded : World)
        → Owned attached handle w a loaded
        → IsIssued h d a.key_custody i
        → Replaced a i loaded key w'
        → Rotated (json 201 (rotate_response a key i)) w'

  rotate_key_steps-Rotated :
      Outcome Rotated (Refuses RotateKeyResponse) (rotate_key_steps h d attached handle w)
  rotate_key_steps-Rotated =
      let X = RotateKeyResponse in
      let S = Refuses X in
      bind_step _ S (λ a w1. Owned attached handle w a w1)
        (load_owned_agent {R = X} attached handle) _ w (load_owned_agent-Owned X attached handle w)
        (λ a w1 own. issue_step X _ h d a.key_custody _ w1 (λ i is_issued.
          bind_step _ S (λ key w2. Replaced a i w1 key w2) (replace_keys {R = X} a.id i) _ w1
            (replace_keys-Replaced X a i w1)
            (λ key w2 replaced. rotated a i key w1 own is_issued replaced)))

  rotate_key-Rotated :
      (reply : Reply RotateKeyResponse) (w' : World)
      → rotate_key h d attached handle w ≡ (reply, w')
      → Rotated reply w'
  unfolding rotate_key
  rotate_key-Rotated reply w' e =
      serve_or_refused RotateKeyResponse Rotated (rotate_key_steps h d attached handle w)
        (λ x w1 r. refused x r) rotate_key_steps-Rotated e

-- The agent that a handle names.
abbrev pub live_agent : Bytes → Db → Option Agent
live_agent handle db =
    first_where (λ b. same_handle handle b && not (is_some b.removed_at)) db.agents

-- `key` is the only active key of the agent, and nothing of others has changed since `before`.
pub record OnlyKey (agent : ℕ) (key : AgentKey) (before after : Db) : Type 0 where
  pub only : select_where (active_of agent) after.agent_keys ≡ key ∷ []
  pub others :
      select_where (other_than agent) after.agent_keys
      ≡ select_where (other_than agent) before.agent_keys
  pub agents_same : after.agents ≡ before.agents

-- A replacement of the keys of an agent with nobody else active.
pub record ReplacedAlone (agent : Agent) (issued : Issued) (w : World) (key : AgentKey) (w' : World)
    : Type 0 where
  pub only_key : OnlyKey agent.id key w.db w'.db
  pub fingerprint : key.fingerprint ≡ issued.fingerprint
  pub encrypted : key.encrypted_private_key ≡ issued.encrypted_private_key
  pub same_time : w'.now ≡ w.now
  pub alone : w'.schedule ≡ []

pub Replaced-alone :
    {agent : Agent} {issued : Issued} {w : World} {key : AgentKey} {w' : World}
    → Replaced agent issued w key w'
    → w.schedule ≡ []
    → ReplacedAlone agent issued w key w'
Replaced-alone {agent} {issued} {w} {key} {w'} r alone =
    let (revoked, t1, alone1) = r.revoked.alone alone in
    let (inserted, t2, alone2) = r.inserted.alone alone1 in
    let (none_active, others, agents_same) = revoke_all-left agent.id w.now w.db revoked in
    let i = insert_agent_key-Inserted (key_params agent.id issued) _ _ inserted in
    record {
      only_key = record {
        only = Inserted-only i none_active;
        others = Inserted-others i ∙ others;
        agents_same = i.agents_same ∙ agents_same;
      };
      fingerprint = i.fingerprint;
      encrypted = i.encrypted;
      same_time = t2 ∙ t1;
      alone = alone2;
    }

pub Owned-alone :
    {attached : Option AuthUser} {handle : Bytes} {w : World} {a : Agent} {w' : World}
    → Owned attached handle w a w'
    → w.schedule ≡ []
    → (live_agent handle w.db ≡ some a) × (w.db ≡ w'.db) × (w'.now ≡ w.now) × (w'.schedule ≡ [])
unfolding get_agent_by_handle
Owned-alone {attached} {handle} {w} {a} {w'} o alone =
    let (ran, t, alone1) = o.found.alone alone in
    let (hit, same) = read-eq-ok (live_agent handle w.db) w.db ran in (hit, same, t, alone1)

-- A rotation of the key of an agent of the user.
pub record RotatedAlone (attached : Option AuthUser) (handle : Bytes) (w : World)
    (r : RotateKeyResponse) (w' : World) : Type 0 where
  pub user : AuthUser
  pub is_user : attached ≡ some user
  pub agent : Agent
  pub named : live_agent handle w.db ≡ some agent
  pub own : agent.owner_id ≡ user.user.id
  pub key : AgentKey
  pub shown : (r.id ≡ key.id) × (r.fingerprint ≡ key.fingerprint)
  pub left : OnlyKey agent.id key w.db w'.db

-- When RotateKey answers 201 and no other request is active, the handle names a live agent of the
-- user of the request, the key whose id and fingerprint are shown is the only active key of that
-- agent, and the keys of all other agents and the agents themselves are as before.
pub rotate_key-OnlyKey :
    (h : Handlers) (d : Drawn) (attached : Option AuthUser) (handle : Bytes) (w : World)
    (r : RotateKeyResponse) (w' : World)
    → w.schedule ≡ []
    → rotate_key h d attached handle w ≡ (json 201 r, w')
    → RotatedAlone attached handle w r w'
rotate_key-OnlyKey h d attached handle w r w' alone e =
    from (json 201 r) refl (rotate_key-Rotated h d attached handle w (json 201 r) w' e)
  where
    from :
        (reply : Reply RotateKeyResponse)
        → reply ≡ json 201 r
        → Rotated h d attached handle w reply w'
        → RotatedAlone attached handle w r w'
    from reply q (refused x n) = absurd (subst IsRefusal q n)
    from reply q (rotated a i key loaded own is_issued replaced) =
        let (hit, same, t, alone1) = Owned-alone own alone in
        let m = Replaced-alone replaced alone1 in
        record {
          user = own.user;
          is_user = own.is_user;
          agent = a;
          named = hit;
          own = own.own;
          key = key;
          shown = let p : rotate_response a key i ≡ r = cc in rw (← p) (refl, sym m.fingerprint);
          left = rw same m.only_key;
        }

-- After a 201 of RotateKey with no other request active, as long as the tables are the ones that it
-- left, the key fetcher of Verify gives no key of the agent of that handle but the one whose id was
-- shown: what any earlier key has signed is refused.
pub rotate_key-db_fetch :
    (h : Handlers) (d : Drawn) (attached : Option AuthUser) (handle : Bytes) (w : World)
    (r : RotateKeyResponse) (w' : World) (fingerprint : Bytes) (later : World)
    (rec : AgentKeyRecord) (after : World)
    → w.schedule ≡ []
    → rotate_key h d attached handle w ≡ (json 201 r, w')
    → db_fetch {X = Nothing} fingerprint later ≡ (go (ok (some rec)), after)
    → after.db ≡ w'.db
    → (agent : Agent) × (live_agent handle w.db ≡ some agent)
      × (rec.agent_id ≡ agent.id → rec.key_id ≡ r.id)
rotate_key-db_fetch h d attached handle w r w' fingerprint later rec after alone e f same =
    let m = rotate_key-OnlyKey h d attached handle w r w' alone e in
    let k = db_fetch-ActiveKey {X = Nothing} fingerprint later rec after f in
    let found : first_where (λ k. bytes_eq k.fingerprint fingerprint) w'.db.agent_keys
        ≡ some k.row =
      subst (λ db. first_where (λ k. bytes_eq k.fingerprint fingerprint) db.agent_keys ≡ some k.row)
        same k.found in
    let one =
      first_where-All (λ x. active_of m.agent.id x ≡ true → x ≡ m.key)
        (λ k. bytes_eq k.fingerprint fingerprint) w'.db.agent_keys k.row
        (select_where-eq-one (active_of m.agent.id) w'.db.agent_keys m.key m.left.only) found in
    (
      m.agent,
      m.named,
      λ own.
          let row_own : k.row.agent_id ≡ m.agent.id =
            sym (ap (λ (t : AgentKeyRecord). t.agent_id) k.same) ∙ own in
          let row_is = one (active_of-holds k.row m.agent.id row_own k.active_row) in
          ap (λ (t : AgentKeyRecord). t.key_id) k.same
          ∙ ap (λ (t : AgentKey). t.id) row_is
          ∙ sym m.shown.0,
    )
