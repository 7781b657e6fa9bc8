-- ===== src/Db/Entries.antt =====
-- internal/db/dbgen/entries.sql.go and bin.sql.go.
pub mod Deletes
pub mod Bin
pub mod Inserted
use diarion_core.Prelude.{
  ℕ, suc, ◌+◌, ◌-◌, Bool, true, false, not, ◌&&◌, ◌||◌, Option, none, some, List, [], ◌∷◌, ◌++◌,
  leb, ltb, ◌==◌, if◌then◌else◌, length, any, head?, take, drop, map, Bytes, bytes_eq, codes,
}
use diarion_core.Prelude.Result.{Result, ok, err, or_err}
use diarion_core.Db.Models.{Db, Time, Agent, AgentKey, Entry}
use diarion_core.Db.Table.{
  select_where, first_where, update_where, delete_where, count_where, order_by,
}
use diarion_core.Db.Agents.{is_some, thirty_days, one_second}
use diarion_core.Db.World.{
  Query, DbError, no_rows, fk_violation, check_violation, unique_violation, slug_per_agent,
}

pub record InsertEntryParams : Type 0 where
  pub agent_id : ℕ
  pub signing_key_id : ℕ
  pub slug : Bytes
  pub title : Bytes
  pub body_markdown : Bytes
  pub body_html : Bytes
  pub tags : List Bytes
  pub project : Option Bytes
  pub frontmatter : Bytes
  pub stack_override : Option Bytes
  pub signature : Bytes
  pub content_hash : Bytes
  pub prev_entry_hash : Option Bytes

abbrev pub entry_of : ℕ → Time → InsertEntryParams → Entry
entry_of id now arg = record {
  id = id;
  agent_id = arg.agent_id;
  signing_key_id = arg.signing_key_id;
  slug = arg.slug;
  title = arg.title;
  body_markdown = arg.body_markdown;
  body_html = arg.body_html;
  tags = arg.tags;
  project = arg.project;
  frontmatter = arg.frontmatter;
  stack_override = arg.stack_override;
  signature = arg.signature;
  content_hash = arg.content_hash;
  prev_entry_hash = arg.prev_entry_hash;
  published_at = now;
  removed_at = none;
  hard_delete_at = none;
  removed_reason = none;
}

-- UNIQUE (agent_id, slug) counts the entries in the bin too.
unfoldable pub slug_taken : ℕ → Bytes → List Entry → Bool
slug_taken agent slug entries = any (λ e. e.agent_id == agent && bytes_eq e.slug slug) entries

unfoldable pub insert_entry : InsertEntryParams → Query Entry
insert_entry arg now db =
    let row = entry_of db.next_entry now arg in
    let drawn : Db = record db { next_entry = suc db.next_entry } in
    if not (length arg.signature == 64 && length arg.content_hash == 32)
    then (err check_violation, drawn)
    else if slug_taken arg.agent_id arg.slug db.entries
    then (err (unique_violation slug_per_agent), drawn)
    else if not (
        any (λ a. a.id == arg.agent_id) db.agents
        && any (λ k. k.id == arg.signing_key_id) db.agent_keys)
    then (err fk_violation, drawn)
    else (ok row, record drawn { entries = db.entries ++ row ∷ [] })

abbrev pub is_live : Entry → Bool
is_live e = not (is_some e.removed_at)

abbrev pub newer_entry : Entry → Entry → Bool
newer_entry e f = ltb f.published_at e.published_at

unfoldable pub get_entry_by_agent_and_slug : ℕ → Bytes → Query Entry
get_entry_by_agent_and_slug agent slug now db = (
  or_err (first_where (λ e. e.agent_id == agent && bytes_eq e.slug slug && is_live e) db.entries)
      no_rows,
  db,
)

-- The live entries of an agent, the latest first.
unfoldable pub entries_of : ℕ → List Entry → List Entry
entries_of agent entries =
    order_by newer_entry (select_where (λ e. e.agent_id == agent && is_live e) entries)

abbrev pub content_hash_of : Option Entry → Option Bytes
content_hash_of (some e) = some e.content_hash
content_hash_of none = none

unfoldable pub get_latest_entry_hash_for_agent : ℕ → Query Bytes
unfolding entries_of
get_latest_entry_hash_for_agent agent now db =
    (or_err (content_hash_of (head? (entries_of agent db.entries))) no_rows, db)

unfoldable pub list_entries_by_agent : ℕ → ℕ → ℕ → Query (List Entry)
unfolding entries_of
list_entries_by_agent agent limit offset now db =
    (ok (take limit (drop offset (entries_of agent db.entries))), db)

unfoldable pub list_entries_global : ℕ → ℕ → Query (List Entry)
list_entries_global limit offset now db =
    (ok (take limit (drop offset (order_by newer_entry (select_where is_live db.entries)))), db)

unfoldable pub list_entries_by_tag : Bytes → ℕ → ℕ → Query (List Entry)
list_entries_by_tag tag limit offset now db = (
  ok (
      take limit (
        drop offset (
          order_by newer_entry
            (select_where (λ e. is_live e && any (bytes_eq tag) e.tags) db.entries)))),
  db,
)

unfoldable pub count_entries_by_agent : ℕ → Query ℕ
count_entries_by_agent agent now db =
    (ok (count_where (λ e. e.agent_id == agent && is_live e) db.entries), db)

abbrev pub bin_entry : Time → Option Bytes → Entry → Entry
bin_entry now reason e = record e {
  removed_at = some now;
  hard_delete_at = some (now + thirty_days);
  removed_reason = reason;
}

unfoldable pub soft_delete_entry : ℕ → Option Bytes → Query (Unit {0})
soft_delete_entry id reason now db = (
  ok tt,
  record db { entries = update_where (λ e. e.id == id) (bin_entry now reason) db.entries },
)

abbrev pub unbin_entry : Entry → Entry
unbin_entry e = record e { removed_at = none; hard_delete_at = none; removed_reason = none }

unfoldable pub restore_entry : ℕ → Query (Unit {0})
restore_entry id now db =
    (ok tt, record db { entries = update_where (λ e. e.id == id) unbin_entry db.entries })

unfoldable pub get_entry_by_id : ℕ → Query Entry
get_entry_by_id id now db = (or_err (first_where (λ e. e.id == id) db.entries) no_rows, db)

-- Time does not go below zero here, where the epoch is far back.
unfoldable pub force_expire_binned_entry : ℕ → Query (Unit {0})
force_expire_binned_entry id now db = (
  ok tt,
  record db {
    entries =
        update_where (λ e. e.id == id && is_some e.removed_at)
          (λ e. record e { hard_delete_at = some (now - one_second) }) db.entries;
  },
)
