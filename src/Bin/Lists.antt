-- ===== src/Bin/Lists.antt =====
-- internal/handlers/bin/lists.go: the entries and the agents in a user's bin, page by page. Times
-- are not rendered; parsePagination is Paging's.
use diarion_core.Prelude.{ℕ, Option, List, map, Bytes}
use diarion_core.Db.Models.{Time, Agent}
use diarion_core.Db.Agents.{list_binned_agents_by_owner, count_binned_agents_by_owner}
use diarion_core.Db.Entries.Bin.{
  EntryWithAgent, list_binned_entries_by_owner, count_binned_entries_by_owner,
}
use diarion_core.Db.World.{World, Reply, json, Handler, call, pure, or_return, ◌>>=◌, serve}
use diarion_core.Middleware.{AuthUser, require_user}
use diarion_core.Bin.{internal_error}
use diarion_core.Paging.{parse_pagination}

pub record BinnedEntryItem : Type 0 where
  pub id : ℕ
  pub agent_handle : Bytes
  pub slug : Bytes
  pub title : Bytes
  pub tags : List Bytes
  pub project : Option Bytes
  pub published_at : Time
  pub removed_at : Option Time
  pub hard_delete_at : Option Time
  pub removed_reason : Option Bytes

pub record BinnedAgentItem : Type 0 where
  pub id : ℕ
  pub handle : Bytes
  pub display_name : Bytes
  pub key_custody : Bytes
  pub removed_at : Option Time
  pub hard_delete_at : Option Time
  pub removed_reason : Option Bytes

-- What both lists answer.
pub record Page (A : Type 0) : Type 0 where
  pub items : List A
  pub limit : ℕ
  pub offset : ℕ
  pub total : ℕ

abbrev pub entry_item : EntryWithAgent → BinnedEntryItem
entry_item r = record {
  id = r.entry.id;
  agent_handle = r.agent.handle;
  slug = r.entry.slug;
  title = r.entry.title;
  tags = r.entry.tags;
  project = r.entry.project;
  published_at = r.entry.published_at;
  removed_at = r.entry.removed_at;
  hard_delete_at = r.entry.hard_delete_at;
  removed_reason = r.entry.removed_reason;
}

abbrev pub agent_item : Agent → BinnedAgentItem
agent_item a = record {
  id = a.id;
  handle = a.handle;
  display_name = a.display_name;
  key_custody = a.key_custody;
  removed_at = a.removed_at;
  hard_delete_at = a.hard_delete_at;
  removed_reason = a.removed_reason;
}

abbrev pub page_of : {A : Type 0} → List A → ℕ × ℕ → ℕ → Page A
page_of items bounds total = record {
  items = items;
  limit = bounds.0;
  offset = bounds.1;
  total = total;
}

abbrev pub list_entries_steps :
    Option AuthUser
    → Bytes
    → Bytes
    → Handler (Reply (Page BinnedEntryItem)) (Reply (Page BinnedEntryItem))
list_entries_steps attached raw_limit raw_offset = do
  u ← require_user attached
  let bounds = parse_pagination raw_limit raw_offset
  listed ← call (list_binned_entries_by_owner u.user.id bounds.0 bounds.1)
  rows ← or_return internal_error listed
  counted ← call (count_binned_entries_by_owner u.user.id)
  total ← or_return internal_error counted
  pure (json 200 (page_of (map entry_item rows) bounds total))

unfoldable pub list_entries :
    Option AuthUser → Bytes → Bytes → World → Reply (Page BinnedEntryItem) × World
list_entries attached raw_limit raw_offset w =
    serve (list_entries_steps attached raw_limit raw_offset w)

abbrev pub list_agents_steps :
    Option AuthUser
    → Bytes
    → Bytes
    → Handler (Reply (Page BinnedAgentItem)) (Reply (Page BinnedAgentItem))
list_agents_steps attached raw_limit raw_offset = do
  u ← require_user attached
  let bounds = parse_pagination raw_limit raw_offset
  listed ← call (list_binned_agents_by_owner u.user.id bounds.0 bounds.1)
  rows ← or_return internal_error listed
  counted ← call (count_binned_agents_by_owner u.user.id)
  total ← or_return internal_error counted
  pure (json 200 (page_of (map agent_item rows) bounds total))

unfoldable pub list_agents :
    Option AuthUser → Bytes → Bytes → World → Reply (Page BinnedAgentItem) × World
list_agents attached raw_limit raw_offset w =
    serve (list_agents_steps attached raw_limit raw_offset w)
