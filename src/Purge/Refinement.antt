-- ===== src/Purge/Refinement.antt =====
-- A pass deletes exactly what is due, all layers at once.
use diarion_core.Prelude.{
  sym, subst, ℕ, ◌≡◌, refl, ◌∙◌, ap, Bool, true, false, ◌||◌, List, [], ◌∷◌, arith, All, All-map,
}
use mathlib.Core.Path.{fun_ext}
use diarion_core.Db.Models.{Db, Time, Agent, Entry}
use diarion_core.Db.Table.{delete_where, delete_where-All, delete_where-delete_where}
use diarion_core.Db.Agents.{is_expired}
use diarion_core.Db.Agents.Deletes.{goes, user_expired}
use diarion_core.Db.Entries.Deletes.{agent_where}
use diarion_core.Db.World.{World, DbError, Flow, go, quiet}
use diarion_core.Purge.{Counts, run_once}
use diarion_core.Purge.Pass.{Sound}
use diarion_core.Purge.Purged.{
  agent_due, entry_due, purged, entries_gone, by_owner, by_deadline, agents_gone, users_gone,
  run_once_steps,
}

agent_where-or :
    (p q : Agent → Bool) (agents : List Agent) (id : ℕ)
    → (agent_where q agents id || agent_where p agents id) ≡ agent_where (λ a. p a || q a) agents id
unfolding agent_where
agent_where-or p q [] id = refl
agent_where-or p q (a ∷ agents) id = ground (arith, agent_where-or p q agents id)

goes-or :
    (p q : Agent → Bool) (agents : List Agent) (id : ℕ)
    → (goes p agents id || goes q (delete_where p agents) id) ≡ goes (λ a. p a || q a) agents id
unfolding goes delete_where
goes-or p q [] id = refl
goes-or p q (a ∷ agents) id = ground (arith, goes-or p q agents id)

delete_where_ext {ℓ} :
    {A : Type ℓ} (p q : A → Bool) (xs : List A)
    → ((x : A) → p x ≡ q x)
    → delete_where p xs ≡ delete_where q xs
delete_where_ext p q xs h = ap (λ r. delete_where r xs) (fun_ext h)

entries_fused :
    (now : Time) (db : Db)
    → (entries_gone now db).entries ≡ delete_where (entry_due now db) db.entries
entries_fused now db =
    let via_agent : Entry → Bool = λ e. agent_where (by_deadline now) db.agents e.agent_id in
    let via_owner : Entry → Bool = λ e. agent_where (by_owner now db) db.agents e.agent_id in
    ap (delete_where (λ e. is_expired now e.hard_delete_at))
      (delete_where-delete_where via_agent via_owner db.entries)
    ∙ delete_where-delete_where _ (λ e. is_expired now e.hard_delete_at) db.entries
    ∙ delete_where_ext _ (entry_due now db) db.entries (λ e.
      ap (λ b. b || is_expired now e.hard_delete_at)
        (agent_where-or (by_owner now db) (by_deadline now) db.agents e.agent_id))

keys_fused :
    (now : Time) (db : Db)
    → (agents_gone now db).agent_keys
      ≡ delete_where (λ k. goes (agent_due now db.users) db.agents k.agent_id) db.agent_keys
keys_fused now db =
    delete_where-delete_where (λ k. goes (by_owner now db) db.agents k.agent_id)
      (λ k. goes (by_deadline now) (delete_where (by_owner now db) db.agents) k.agent_id)
      db.agent_keys
    ∙ delete_where_ext _ _ db.agent_keys
        (λ k. goes-or (by_owner now db) (by_deadline now) db.agents k.agent_id)

users_gone-eq-purged : (now : Time) (db : Db) → users_gone now db ≡ purged now db
unfolding purged
users_gone-eq-purged now db = λ i. record db {
  entries = entries_fused now db i;
  agents = delete_where-delete_where (by_owner now db) (by_deadline now) db.agents i;
  agent_keys = keys_fused now db i;
  users = delete_where (λ u. is_expired now u.hard_delete_at) db.users;
  sessions = delete_where (λ s. user_expired now db.users s.user_id) db.sessions;
  tokens = delete_where (λ t. user_expired now db.users t.user_id) db.tokens;
}

-- Where each entry's key belongs to the entry's agent and no rejected submission is stored, a pass
-- that nothing interrupts and in which no time passes meets no foreign key error, and leaves
-- exactly the tables without the rows that are due: the entries, agents and users past their
-- deadlines, the agents of such users, and the entries of such agents.
pub run_once-purged :
    (now : Time) (db : Db)
    → Sound db
    → (c : Counts) × (run_once (quiet now db) ≡ (go c, quiet now (purged now db)))
run_once-purged now db s =
    let (c, e) = run_once_steps now db s in
    (c, e ∙ ap (λ d. (go c, quiet now d)) (users_gone-eq-purged now db))

purged_done :
    (now : Time) (db : Db)
    → All (λ e. is_expired now e.hard_delete_at ≡ false) (purged now db).entries
      × All (λ a. is_expired now a.hard_delete_at ≡ false) (purged now db).agents
      × All (λ u. is_expired now u.hard_delete_at ≡ false) (purged now db).users
unfolding purged
purged_done now db = (
  All-map (λ e h. or_right _ _ h) _ (delete_where-All (entry_due now db) db.entries),
  All-map (λ a h. or_right _ _ h) _ (delete_where-All (agent_due now db.users) db.agents),
  delete_where-All (λ u. is_expired now u.hard_delete_at) db.users,
)
  where
    or_right : (a b : Bool) → (a || b) ≡ false → b ≡ false
    or_right true b h = absurd (cc h)
    or_right false b h = h

-- After a pass that nothing interrupts and in which no time passes, over tables where each entry's
-- key belongs to the entry's agent and no rejected submission is stored, no entry, agent or user
-- past its deadline is left.
pub run_once_done :
    (now : Time) (db : Db)
    → Sound db
    → (r : Flow DbError Counts) (w : World) → run_once (quiet now db) ≡ (r, w)
    → All (λ e. is_expired now e.hard_delete_at ≡ false) w.db.entries
      × All (λ a. is_expired now a.hard_delete_at ≡ false) w.db.agents
      × All (λ u. is_expired now u.hard_delete_at ≡ false) w.db.users
run_once_done now db s r w h =
    let (c, e) = run_once-purged now db s in
    let same : quiet now (purged now db) ≡ w = ap (λ p. p.1) (sym e ∙ h) in
    subst
      (λ w.
        All (λ e. is_expired now e.hard_delete_at ≡ false) w.db.entries
        × All (λ a. is_expired now a.hard_delete_at ≡ false) w.db.agents
        × All (λ u. is_expired now u.hard_delete_at ≡ false) w.db.users)
      same (purged_done now db)
