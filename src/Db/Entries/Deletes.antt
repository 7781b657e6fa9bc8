-- ===== src/Db/Entries/Deletes.antt =====
-- internal/db/dbgen/entries.sql.go: the DELETE statements on entries. Nothing refers to an entry,
-- so no foreign key refuses them.
use diarion_core.Prelude.{ℕ, Bool, ◌&&◌, List, ◌==◌, any}
use diarion_core.Prelude.Result.{Result, ok}
use diarion_core.Db.Models.{Db, Agent, Entry}
use diarion_core.Db.Table.{delete_where, count_where}
use diarion_core.Db.World.{Query, DbError}
use diarion_core.Db.Agents.{is_some, is_expired}
use diarion_core.Db.Agents.Deletes.{user_expired}

unfoldable pub delete_entries : (Entry → Bool) → Db → Result DbError ℕ × Db
delete_entries p db =
    (ok (count_where p db.entries), record db { entries = delete_where p db.entries })

unfoldable pub purge_expired_entries : Query ℕ
purge_expired_entries now = delete_entries (λ e. is_expired now e.hard_delete_at)

unfoldable pub hard_delete_entry : ℕ → Query ℕ
hard_delete_entry id now = delete_entries (λ e. e.id == id)

unfoldable pub hard_delete_entries_for_agent : ℕ → Query ℕ
hard_delete_entries_for_agent agent now = delete_entries (λ e. e.agent_id == agent)

-- Whether the agent with this id is one that the condition picks.
unfoldable pub agent_where : (Agent → Bool) → List Agent → ℕ → Bool
agent_where p agents id = any (λ a. a.id == id && p a) agents

unfoldable pub hard_delete_entries_by_owner : ℕ → Query ℕ
hard_delete_entries_by_owner owner now db =
    delete_entries
      (λ e. agent_where (λ a. a.owner_id == owner) db.agents e.agent_id && is_some e.removed_at) db

unfoldable pub hard_delete_entries_for_expired_agents : Query ℕ
hard_delete_entries_for_expired_agents now db =
    delete_entries (λ e. agent_where (λ a. is_expired now a.hard_delete_at) db.agents e.agent_id) db

unfoldable pub hard_delete_entries_for_expired_users : Query ℕ
hard_delete_entries_for_expired_users now db =
    delete_entries
      (λ e. agent_where (λ a. user_expired now db.users a.owner_id) db.agents e.agent_id) db
