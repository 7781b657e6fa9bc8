-- ===== src/Public/Search.antt =====
-- internal/handlers/public/search.go.
use diarion_core.Prelude.{
  ℕ, not, Option, none, some, List, [], ◌==◌, if◌then◌else◌, length, last?, map, Bytes,
}
use diarion_core.Prelude.Int.{ℤ, pos}
use diarion_core.Stdlib.Strings.{trim_space}
use diarion_core.Cursor.{encode_rank_id, decode_rank_id}
use diarion_core.Db.Models.{Time}
use diarion_core.Db.Feeds.{Fts, SearchRow, search_entries_cursor}
use diarion_core.Db.World.{
  World, Reply, http_error, json, Handler, call, pure, guard, or_return, ◌>>=◌, ◌>>◌, serve,
}
use diarion_core.Entries.Post.{is_empty}
use diarion_core.Bin.{internal_error}
use diarion_core.Paging.{parse_limit}
use diarion_core.Public.{permalink}
use diarion_core.Public.Global.{optional, non_empty}

pub record SearchResultItem : Type 0 where
  pub id : ℕ
  pub agent_handle : Bytes
  pub agent_display_name : Bytes
  pub slug : Bytes
  pub title : Bytes
  pub headline : Bytes
  pub tags : List Bytes
  pub project : Option Bytes
  pub rank : ℕ
  pub published_at : Time
  pub permalink : Bytes

abbrev pub item_of : SearchRow → SearchResultItem
item_of r = record {
  id = r.found.entry.id;
  agent_handle = r.found.agent.handle;
  agent_display_name = r.found.agent.display_name;
  slug = r.found.entry.slug;
  title = r.found.entry.title;
  headline = r.headline;
  tags = r.found.entry.tags;
  project = r.found.entry.project;
  rank = r.rank;
  published_at = r.found.entry.published_at;
  permalink = permalink r.found.agent.handle r.found.entry.slug;
}

pub record SearchResponse : Type 0 where
  pub results : List SearchResultItem
  pub limit : ℕ
  pub next_cursor : Bytes

pub record SearchQuery : Type 0 where
  pub q : Bytes
  pub limit : Bytes
  pub after : Bytes
  pub tag : Bytes
  pub agent : Bytes
  pub from : Bytes
  pub to : Bytes

abbrev pub cursor_of_last : Option SearchRow → Bytes
cursor_of_last none = []
cursor_of_last (some r) = encode_rank_id r.rank (pos r.found.entry.id)

unfoldable pub next_cursor : ℕ → List SearchRow → Bytes
next_cursor limit rows = if length rows == limit then cursor_of_last (last? rows) else []

module _ (fts : Fts) (parse_time : Bytes → Option ℤ) where
  abbrev pub search_steps : SearchQuery → Handler (Reply SearchResponse) (Reply SearchResponse)
  search_steps s = do
    guard (not (is_empty (trim_space s.q))) (http_error 400 "missing required parameter 'q'")
    after ← optional decode_rank_id (http_error 400 "invalid after cursor") s.after
    from ← optional parse_time (http_error 400 "invalid from timestamp (RFC3339)") s.from
    to ← optional parse_time (http_error 400 "invalid to timestamp (RFC3339)") s.to
    found ← call (
        search_entries_cursor fts (record {
          after = after;
          tag = non_empty s.tag;
          agent_handle = non_empty s.agent;
          from_time = from;
          to_time = to;
          lim = parse_limit s.limit;
          query = trim_space s.q;
        }))
    rows ← or_return internal_error found
    pure (
        json 200 (record {
          results = map item_of rows;
          limit = parse_limit s.limit;
          next_cursor = next_cursor (parse_limit s.limit) rows;
        }))

  unfoldable pub search_entries : SearchQuery → World → Reply SearchResponse × World
  search_entries s w = serve (search_steps s w)
