-- ===== src/Purge.antt =====
-- internal/purge/worker.go: one pass of the hourly job that deletes for good what has been in the
-- bin for its 30 days. The ticker and the log lines around it are left out.
pub mod Pass
pub mod Purged
pub mod Refinement
mod Tests
use diarion_core.Prelude.{ℕ}
use diarion_core.Prelude.Result.{Result, ok, err}
use diarion_core.Db.World.{Query, DbError, Handler, call, pure, or_return, ◌>>=◌}
use diarion_core.Db.Entries.Deletes.{
  hard_delete_entries_for_expired_agents, hard_delete_entries_for_expired_users,
  purge_expired_entries,
}
use diarion_core.Db.Agents.Deletes.{hard_delete_agents_for_expired_users, purge_expired_agents}
use diarion_core.Db.Users.{purge_expired_users}

-- The counts of the log line.
pub record Counts : Type 0 where
  pub entries_via_agents : ℕ
  pub entries_via_users : ℕ
  pub entries_direct : ℕ
  pub agents_via_users : ℕ
  pub agents_direct : ℕ
  pub users : ℕ

-- A statement whose error is returned at once.
abbrev statement : Query ℕ → Handler DbError ℕ
statement q = call q >>= or_return (λ e. e)

unfoldable pub run_once : Handler DbError Counts
run_once = do
  entries_from_agents ← statement hard_delete_entries_for_expired_agents
  entries_from_users ← statement hard_delete_entries_for_expired_users
  entries_direct ← statement purge_expired_entries
  agents_from_users ← statement hard_delete_agents_for_expired_users
  agents_direct ← statement purge_expired_agents
  users ← statement purge_expired_users
  pure (record {
    entries_via_agents = entries_from_agents;
    entries_via_users = entries_from_users;
    entries_direct = entries_direct;
    agents_via_users = agents_from_users;
    agents_direct = agents_direct;
    users = users;
  })
