-- ===== src/Db/Keys/Active.antt =====
-- The active keys of an agent, as revocation and insertion leave them.
use diarion_core.Prelude.{
  ℕ, ◌≡◌, refl, ap, Bool, true, not, ◌&&◌, [], ◌∷◌, ◌++◌, arith, ◌==◌, ==_refl, append-nil, length,
  any, bytes_eq, Bool-cases, inl, inr,
}
use diarion_core.Prelude.Result.{ok}
use diarion_core.Db.Models.{Db, Time, AgentKey, active}
use diarion_core.Db.Table.{
  select_where, update_where, select_where-append, select_where-update_where_none,
  select_where-update_where_other,
}
use diarion_core.Db.Keys.{
  InsertAgentKeyParams, insert_agent_key, is_active, revoke, revoke_all_active_keys_for_agent,
}

abbrev pub active_of : ℕ → AgentKey → Bool
active_of agent k = k.agent_id == agent && is_active k.status

abbrev pub other_than : ℕ → AgentKey → Bool
other_than agent k = not (k.agent_id == agent)

pub active_of-holds :
    (k : AgentKey) (agent : ℕ) → k.agent_id ≡ agent → k.status ≡ active → active_of agent k ≡ true
unfolding is_active
active_of-holds k agent own act = rw (own, act, ==_refl agent) refl

-- A key that was inserted stands last.
pub record Inserted (arg : InsertAgentKeyParams) (db : Db) (k : AgentKey) (db' : Db) : Type 0 where
  pub appended : db'.agent_keys ≡ db.agent_keys ++ k ∷ []
  pub agents_same : db'.agents ≡ db.agents
  pub of_agent : k.agent_id ≡ arg.agent_id
  pub fingerprint : k.fingerprint ≡ arg.fingerprint
  pub encrypted : k.encrypted_private_key ≡ arg.encrypted_private_key
  pub is_active_key : k.status ≡ active
  pub public_key_len : length arg.public_key ≡ 32

pub insert_agent_key-Inserted :
    (arg : InsertAgentKeyParams) (now : Time) (db : Db) {k : AgentKey} {db' : Db}
    → insert_agent_key arg now db ≡ (ok k, db')
    → Inserted arg db k db'
unfolding insert_agent_key
insert_agent_key-Inserted arg now db h = elim (Bool-cases (length arg.public_key == 32)) [
  | inr l ↦ let k = rw l at h in cc
  | inl l ↦ elim (Bool-cases (any (λ k. bytes_eq k.public_key arg.public_key) db.agent_keys)) [
    | inl p ↦ let k = rw (l, p) at h in cc
    | inr p ↦ elim (Bool-cases (any (λ k. bytes_eq k.fingerprint arg.fingerprint) db.agent_keys)) [
      | inl f ↦ let k = rw (l, p, f) at h in cc
      | inr f ↦ elim (Bool-cases (any (λ a. a.id == arg.agent_id) db.agents)) [
        | inr a ↦ let k = rw (l, p, f, a) at h in cc
        | inl a ↦
            let k = rw (l, p, f, a) at h in
            record {
              appended = cc;
              agents_same = cc;
              of_agent = cc;
              fingerprint = cc;
              encrypted = cc;
              is_active_key = cc;
              public_key_len = ground arith;
            }
      ]
    ]
  ]
]

-- Revocation leaves an agent no active key, and the keys of the others as they were.
pub revoke_all-left :
    (agent : ℕ) (now : Time) (db : Db) {u : Unit {0}} {db' : Db}
    → revoke_all_active_keys_for_agent agent now db ≡ (ok u, db')
    → (select_where (active_of agent) db'.agent_keys ≡ [])
      × (select_where (other_than agent) db'.agent_keys
          ≡ select_where (other_than agent) db.agent_keys)
      × (db'.agents ≡ db.agents)
unfolding revoke_all_active_keys_for_agent is_active
revoke_all-left agent now db h =
    let left : record db { agent_keys = update_where (active_of agent) (revoke now) db.agent_keys }
        ≡ _ =
      ap (λ p. p.1) h in
    rw (← left) (
      select_where-update_where_none (active_of agent) (revoke now) db.agent_keys
          (λ k. ground arith),
      select_where-update_where_other (other_than agent) (active_of agent) (revoke now)
          db.agent_keys (λ k e. ground (arith)),
      refl,
    )

module _ {arg : InsertAgentKeyParams} {db : Db} {k : AgentKey} {db' : Db}
    (i : Inserted arg db k db') where
  -- After an insertion where no key was active, the new key is the only active one.
  pub Inserted-only :
      select_where (active_of arg.agent_id) db.agent_keys ≡ []
      → select_where (active_of arg.agent_id) db'.agent_keys ≡ k ∷ []
  unfolding select_where is_active
  Inserted-only none_active =
      rw
        (
          i.appended,
          select_where-append (active_of arg.agent_id) db.agent_keys (k ∷ []),
          none_active,
          i.of_agent,
          i.is_active_key,
          ==_refl arg.agent_id,
        )
        refl

  pub Inserted-others :
      select_where (other_than arg.agent_id) db'.agent_keys
      ≡ select_where (other_than arg.agent_id) db.agent_keys
  unfolding select_where
  Inserted-others =
      rw
        (
          i.appended,
          select_where-append (other_than arg.agent_id) db.agent_keys (k ∷ []),
          i.of_agent,
          ==_refl arg.agent_id,
        )
        (append-nil (select_where (other_than arg.agent_id) db.agent_keys))
