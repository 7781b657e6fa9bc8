-- ===== src/Db/Agents/Deletes.antt =====
-- internal/db/dbgen/agents.sql.go: the DELETE statements on agents, with what the foreign keys of
-- the schema make of them. agent_keys follow their agent (CASCADE); an entry or a rejected
-- submission of the agent (RESTRICT), or an entry signed with a key that would go, refuses all.
use diarion_core.Prelude.{ℕ, Bool, ◌&&◌, List, ◌==◌, if◌then◌else◌, any}
use diarion_core.Prelude.Result.{Result, ok, err}
use diarion_core.Db.Models.{Db, Time, User, Agent}
use diarion_core.Db.Table.{delete_where, count_where}
use diarion_core.Db.World.{Query, DbError, fk_violation}
use diarion_core.Db.Agents.{is_some, is_expired}

-- Whether an agent with this id is among those that go.
unfoldable pub goes : (Agent → Bool) → List Agent → ℕ → Bool
goes p agents id = any (λ a. p a && a.id == id) agents

-- Whether an entry's key belongs to an agent that goes.
unfoldable pub key_goes : (Agent → Bool) → Db → ℕ → Bool
key_goes p db key = any (λ k. k.id == key && goes p db.agents k.agent_id) db.agent_keys

unfoldable pub delete_agents : (Agent → Bool) → Db → Result DbError ℕ × Db
delete_agents p db =
    if any (λ e. goes p db.agents e.agent_id) db.entries
    then (err fk_violation, db)
    else if any (λ r. goes p db.agents r.agent_id) db.rejected
    then (err fk_violation, db)
    else if any (λ e. key_goes p db e.signing_key_id) db.entries
    then (err fk_violation, db)
    else (
      ok (count_where p db.agents),
      record db {
        agents = delete_where p db.agents;
        agent_keys = delete_where (λ k. goes p db.agents k.agent_id) db.agent_keys;
      },
    )

unfoldable pub hard_delete_agent : ℕ → Query ℕ
hard_delete_agent id now = delete_agents (λ a. a.id == id)

unfoldable pub hard_delete_agents_by_owner : ℕ → Query ℕ
hard_delete_agents_by_owner owner now =
    delete_agents (λ a. a.owner_id == owner && is_some a.removed_at)

unfoldable pub purge_expired_agents : Query ℕ
purge_expired_agents now = delete_agents (λ a. is_expired now a.hard_delete_at)

-- `id IN (SELECT id FROM users WHERE …)` for the users whose time is up.
unfoldable pub user_expired : Time → List User → ℕ → Bool
user_expired now users id = any (λ u. u.id == id && is_expired now u.hard_delete_at) users

unfoldable pub hard_delete_agents_for_expired_users : Query ℕ
hard_delete_agents_for_expired_users now db =
    delete_agents (λ a. user_expired now db.users a.owner_id) db
