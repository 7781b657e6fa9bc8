-- ===== src/Purge/Purged.antt =====
-- The tables that a pass is to leave, and the tables its six statements leave one after another.
use diarion_core.Prelude.{ℕ, ◌≡◌, ◌∙◌, Bool, ◌||◌, List, All-map}
use diarion_core.Prelude.Result.{ok}
use diarion_core.Db.Models.{Db, Time, Agent, Entry, User}
use diarion_core.Db.Table.{
  delete_where, count_where, delete_where-All, All-delete_where, any-delete_where, any-eq-false,
}
use diarion_core.Db.Agents.{is_expired}
use diarion_core.Db.Agents.Deletes.{
  goes, user_expired, hard_delete_agents_for_expired_users, purge_expired_agents,
}
use diarion_core.Db.Entries.Deletes.{
  agent_where, delete_entries, hard_delete_entries_for_expired_agents,
  hard_delete_entries_for_expired_users, purge_expired_entries,
}
use diarion_core.Db.Users.{purge_expired_users}
use diarion_core.Db.World.{go, call, quiet}
use diarion_core.Purge.{Counts, run_once}
use diarion_core.Purge.Pass.{
  Sound, Vacated, without_agents, without_agents-Sound, delete_agents-eq-ok, goes-agent_where,
  All-subset,
}

-- An agent is due with its own deadline or its owner's.
abbrev pub agent_due : Time → List User → Agent → Bool
agent_due now users a = user_expired now users a.owner_id || is_expired now a.hard_delete_at

-- An entry is due with its own deadline, its agent's or its agent's owner's.
abbrev pub entry_due : Time → Db → Entry → Bool
entry_due now db e =
    agent_where (agent_due now db.users) db.agents e.agent_id || is_expired now e.hard_delete_at

-- What a pass is to leave: the rows that are not due, and of the keys, sessions and tokens those
-- whose agent or user stays.
unfoldable pub purged : Time → Db → Db
purged now db = record db {
  entries = delete_where (entry_due now db) db.entries;
  agents = delete_where (agent_due now db.users) db.agents;
  agent_keys = delete_where (λ k. goes (agent_due now db.users) db.agents k.agent_id) db.agent_keys;
  users = delete_where (λ u. is_expired now u.hard_delete_at) db.users;
  sessions = delete_where (λ s. user_expired now db.users s.user_id) db.sessions;
  tokens = delete_where (λ t. user_expired now db.users t.user_id) db.tokens;
}

-- The tables after the three deletions of entries.
abbrev pub entries_gone : Time → Db → Db
entries_gone now db = record db {
  entries =
      delete_where (λ e. is_expired now e.hard_delete_at)
        (delete_where
          (λ e. agent_where (λ a. user_expired now db.users a.owner_id) db.agents e.agent_id)
          (delete_where
            (λ e. agent_where (λ a. is_expired now a.hard_delete_at) db.agents e.agent_id)
            db.entries));
}

abbrev pub by_owner : Time → Db → Agent → Bool
by_owner now db a = user_expired now db.users a.owner_id

abbrev pub by_deadline : Time → Agent → Bool
by_deadline now a = is_expired now a.hard_delete_at

pub Vacated-by_owner : (now : Time) (db : Db) → Vacated (by_owner now db) (entries_gone now db)
Vacated-by_owner now db =
    All-delete_where _ (λ e. is_expired now e.hard_delete_at) _
      (All-map (λ e h. goes-agent_where (by_owner now db) db.agents e.agent_id ∙ h) _
        (delete_where-All (λ e. agent_where (by_owner now db) db.agents e.agent_id)
          (delete_where (λ e. agent_where (by_deadline now) db.agents e.agent_id) db.entries)))

pub Vacated-by_deadline : (now : Time) (db : Db) → Vacated (by_deadline now) (entries_gone now db)
Vacated-by_deadline now db =
    All-delete_where _ (λ e. is_expired now e.hard_delete_at) _
      (All-delete_where _ (λ e. agent_where (by_owner now db) db.agents e.agent_id) _
        (All-map (λ e h. goes-agent_where (by_deadline now) db.agents e.agent_id ∙ h) _
          (delete_where-All (λ e. agent_where (by_deadline now) db.agents e.agent_id) db.entries)))

pub entries_gone-Sound : (now : Time) (db : Db) → Sound db → Sound (entries_gone now db)
entries_gone-Sound now db s = record {
  own_keys =
      All-delete_where _ (λ e. is_expired now e.hard_delete_at) _
        (All-delete_where _ (λ e. agent_where (by_owner now db) db.agents e.agent_id) _
          (All-delete_where _ (λ e. agent_where (by_deadline now) db.agents e.agent_id) db.entries
            s.own_keys));
  none_rejected = s.none_rejected;
}

abbrev pub owners_gone : Time → Db → Db
owners_gone now db = without_agents (by_owner now db) (entries_gone now db)

abbrev pub agents_gone : Time → Db → Db
agents_gone now db = without_agents (by_deadline now) (owners_gone now db)

pub via_users :
    (now : Time) (db : Db)
    → Sound db
    → (n : ℕ) × (hard_delete_agents_for_expired_users now (entries_gone now db)
        ≡ (ok n, owners_gone now db))
unfolding hard_delete_agents_for_expired_users
via_users now db s = (
  _,
  delete_agents-eq-ok (by_owner now db) (entries_gone now db) (entries_gone-Sound now db s)
      (Vacated-by_owner now db),
)

pub direct :
    (now : Time) (db : Db)
    → Sound db
    → (n : ℕ) × (purge_expired_agents now (owners_gone now db) ≡ (ok n, agents_gone now db))
unfolding purge_expired_agents
direct now db s = (
  _,
  delete_agents-eq-ok (by_deadline now) (owners_gone now db)
      (without_agents-Sound (by_owner now db) (entries_gone now db) (entries_gone-Sound now db s))
      (All-subset (by_owner now db) (by_deadline now) db.agents _ (Vacated-by_deadline now db)),
)

abbrev pub users_gone : Time → Db → Db
users_gone now db = record (agents_gone now db) {
  users = delete_where (λ u. is_expired now u.hard_delete_at) db.users;
  sessions = delete_where (λ s. user_expired now db.users s.user_id) db.sessions;
  tokens = delete_where (λ t. user_expired now db.users t.user_id) db.tokens;
}

pub last_statement :
    (now : Time) (db : Db)
    → (n : ℕ) × (purge_expired_users now (agents_gone now db) ≡ (ok n, users_gone now db))
unfolding purge_expired_users
last_statement now db = (
  count_where (λ u. is_expired now u.hard_delete_at) db.users,
  rw (
      any-delete_where (by_owner now db) (by_deadline now)
        (delete_where (by_owner now db) db.agents)
        (any-eq-false (by_owner now db) _ (delete_where-All (by_owner now db) db.agents))),
)

pub run_once_steps :
    (now : Time) (db : Db)
    → Sound db
    → (c : Counts) × (run_once (quiet now db) ≡ (go c, quiet now (users_gone now db)))
unfolding run_once call hard_delete_entries_for_expired_agents hard_delete_entries_for_expired_users
    purge_expired_entries delete_entries
run_once_steps now db s =
    let (n4, e4) = via_users now db s in
    let (n5, e5) = direct now db s in
    let (n6, e6) = last_statement now db in
    (
      record {
        entries_via_agents =
            count_where (λ e. agent_where (by_deadline now) db.agents e.agent_id) db.entries;
        entries_via_users =
            count_where (λ e. agent_where (by_owner now db) db.agents e.agent_id)
              (delete_where (λ e. agent_where (by_deadline now) db.agents e.agent_id) db.entries);
        entries_direct =
            count_where (λ e. is_expired now e.hard_delete_at)
              (delete_where (λ e. agent_where (by_owner now db) db.agents e.agent_id)
                (delete_where (λ e. agent_where (by_deadline now) db.agents e.agent_id)
                  db.entries));
        agents_via_users = n4;
        agents_direct = n5;
        users = n6;
      },
      rw (e4, e5, e6),
    )
