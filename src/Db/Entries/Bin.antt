-- ===== src/Db/Entries/Bin.antt =====
-- internal/db/dbgen/entries.sql.go and bin.sql.go: the statements that join entries with their
-- agents to find an owner's entries.
use diarion_core.Prelude.{
  ℕ, ◌+◌, Bool, ◌&&◌, Option, none, some, List, [], ◌∷◌, ◌==◌, ltb, false, true, take, drop, length,
}
use diarion_core.Prelude.Result.{ok, or_err}
use diarion_core.Db.Models.{Time, Agent, Entry}
use diarion_core.Db.Table.{select_where, first_where, count_where, order_by}
use diarion_core.Db.Agents.{is_some}
use diarion_core.Db.World.{Query, no_rows}

-- An entry's row with the agent that the join puts beside it.
pub record EntryWithAgent : Type 0 where
  pub entry : Entry
  pub agent : Agent

abbrev pub join_agent : Entry → Option Agent → List EntryWithAgent → List EntryWithAgent
join_agent e (some a) rows = record { entry = e; agent = a } ∷ rows
join_agent e none rows = rows

-- `entries e JOIN agents a ON a.id = e.agent_id`; ids are unique, so an entry has one agent at most.
unfoldable pub join_agents : List Agent → List Entry → List EntryWithAgent
join_agents agents [] = []
join_agents agents (e ∷ es) =
    join_agent e (first_where (λ a. a.id == e.agent_id) agents) (join_agents agents es)

unfoldable pub get_entry_by_id_for_owner : ℕ → ℕ → Query EntryWithAgent
get_entry_by_id_for_owner id owner now db = (
  or_err
      (first_where (λ r. r.entry.id == id && r.agent.owner_id == owner)
        (join_agents db.agents db.entries))
      no_rows,
  db,
)

abbrev later : Option Time → Option Time → Bool
later (some s) (some t) = ltb t s
later (some s) none = false
later none (some t) = true
later none none = false

abbrev pub in_bin_of : ℕ → EntryWithAgent → Bool
in_bin_of owner r = r.agent.owner_id == owner && is_some r.entry.removed_at

unfoldable pub list_binned_entries_by_owner : ℕ → ℕ → ℕ → Query (List EntryWithAgent)
list_binned_entries_by_owner owner limit offset now db = (
  ok (
      take limit (
        drop offset (
          order_by (λ r s. later r.entry.removed_at s.entry.removed_at)
            (select_where (in_bin_of owner) (join_agents db.agents db.entries))))),
  db,
)

unfoldable pub count_binned_entries_by_owner : ℕ → Query ℕ
count_binned_entries_by_owner owner now db =
    (ok (count_where (in_bin_of owner) (join_agents db.agents db.entries)), db)

pub record BinSummary : Type 0 where
  pub entries_count : ℕ
  pub agents_count : ℕ
  pub bytes_total : ℕ

abbrev sum_bytes : List EntryWithAgent → ℕ
sum_bytes [] = 0
sum_bytes (r ∷ rows) = length r.entry.body_markdown + length r.entry.body_html + sum_bytes rows

unfoldable pub get_bin_summary_for_owner : ℕ → Query BinSummary
get_bin_summary_for_owner owner now db =
    let binned = select_where (in_bin_of owner) (join_agents db.agents db.entries) in
    (
      ok (record {
        entries_count = length binned;
        agents_count = count_where (λ a. a.owner_id == owner && is_some a.removed_at) db.agents;
        bytes_total = sum_bytes binned;
      }),
      db,
    )
