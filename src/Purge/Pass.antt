-- ===== src/Purge/Pass.antt =====
-- The tables after each statement of a pass, and why no foreign key refuses one.
use diarion_core.Prelude.{
  ℕ, ◌≡◌, refl, Bool, true, false, ◌&&◌, List, [], ◌∷◌, arith, ◌==◌, any, All, All-map, Bool-cases,
  inl, inr,
}
use diarion_core.Prelude.Result.{ok}
use diarion_core.Db.Models.{Db, Agent, AgentKey, Entry}
use diarion_core.Db.Table.{
  delete_where, count_where, All-delete_where, any-delete_where, any-eq-false,
}
use diarion_core.Db.Agents.Deletes.{goes, key_goes, delete_agents}
use diarion_core.Db.Entries.Deletes.{agent_where}

-- An entry's key, where it is there, belongs to the entry's agent.
abbrev pub KeyFits : List AgentKey → Entry → Type 0
KeyFits keys e = All (λ k. (k.id == e.signing_key_id) ≡ true → k.agent_id ≡ e.agent_id) keys

-- What deleting agents needs beside the condition itself.
pub record Sound (db : Db) : Type 0 where
  pub own_keys : All (KeyFits db.agent_keys) db.entries
  pub none_rejected : db.rejected ≡ []

pub goes-agent_where :
    (p : Agent → Bool) (agents : List Agent) (id : ℕ) → goes p agents id ≡ agent_where p agents id
unfolding goes agent_where
goes-agent_where p [] id = refl
goes-agent_where p (a ∷ agents) id = ground (arith, goes-agent_where p agents id)

key_goes_own :
    (p : Agent → Bool) (agents : List Agent) (agent key : ℕ) (k : AgentKey)
    → ((k.id == key) ≡ true → k.agent_id ≡ agent)
    → goes p agents agent ≡ false
    → ((k.id == key) && goes p agents k.agent_id) ≡ false
key_goes_own p agents agent key k fit h = elim (Bool-cases (k.id == key)) [
  | inl e ↦ rw (e, fit e, h)
  | inr e ↦ rw e
]

key_goes-eq-false :
    (p : Agent → Bool) (agents : List Agent) (e : Entry) (keys : List AgentKey)
    → KeyFits keys e
    → goes p agents e.agent_id ≡ false
    → any (λ k. (k.id == e.signing_key_id) && goes p agents k.agent_id) keys ≡ false
key_goes-eq-false p agents e [] fits h = refl
key_goes-eq-false p agents e (k ∷ keys) (fit, fits) h = rw (
  key_goes_own p agents e.agent_id e.signing_key_id k fit h,
  key_goes-eq-false p agents e keys fits h,
)

-- No entry is left under an agent that goes.
abbrev pub Vacated : (Agent → Bool) → Db → Type 0
Vacated p db = All (λ e. goes p db.agents e.agent_id ≡ false) db.entries

keys_vacated :
    (p : Agent → Bool) (agents : List Agent) (keys : List AgentKey) (es : List Entry)
    → All (KeyFits keys) es
    → All (λ e. goes p agents e.agent_id ≡ false) es
    → any (λ e. any (λ k. (k.id == e.signing_key_id) && goes p agents k.agent_id) keys) es ≡ false
keys_vacated p agents keys [] fits h = refl
keys_vacated p agents keys (e ∷ es) (fit, fits) (h, hs) =
    rw (key_goes-eq-false p agents e keys fit h, keys_vacated p agents keys es fits hs)

abbrev pub without_agents : (Agent → Bool) → Db → Db
without_agents p db = record db {
  agents = delete_where p db.agents;
  agent_keys = delete_where (λ k. goes p db.agents k.agent_id) db.agent_keys;
}

pub delete_agents-eq-ok :
    (p : Agent → Bool) (db : Db)
    → Sound db
    → Vacated p db
    → delete_agents p db ≡ (ok (count_where p db.agents), without_agents p db)
unfolding delete_agents key_goes
delete_agents-eq-ok p db s v = rw (
  any-eq-false (λ e. goes p db.agents e.agent_id) db.entries v,
  s.none_rejected,
  keys_vacated p db.agents db.agent_keys db.entries s.own_keys v,
)

pub without_agents-Sound : (p : Agent → Bool) (db : Db) → Sound db → Sound (without_agents p db)
without_agents-Sound p db s = record {
  own_keys =
      All-map (λ e fits. All-delete_where _ (λ k. goes p db.agents k.agent_id) db.agent_keys fits)
        db.entries s.own_keys;
  none_rejected = s.none_rejected;
}

pub goes-delete_where :
    (p q : Agent → Bool) (agents : List Agent) (id : ℕ)
    → goes q agents id ≡ false
    → goes q (delete_where p agents) id ≡ false
unfolding goes
goes-delete_where p q agents id h = any-delete_where (λ a. q a && (a.id == id)) p agents h

pub All-subset :
    (p q : Agent → Bool) (agents : List Agent) (es : List Entry)
    → All (λ e. goes q agents e.agent_id ≡ false) es
    → All (λ e. goes q (delete_where p agents) e.agent_id ≡ false) es
All-subset p q agents es h = All-map (λ e. goes-delete_where p q agents e.agent_id) es h
