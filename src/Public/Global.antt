-- ===== src/Public/Global.antt =====
-- internal/handlers/public/global.go: the global list of entries, page by page.
pub mod Order
pub mod Pages
pub mod Followed
use diarion_core.Prelude.{
  ℕ, Bool, true, false, ◌&&◌, Option, none, some, List, [], ◌∷◌, ◌++◌, ◌==◌, ltb, if◌then◌else◌,
  length, last?, map, Bytes,
}
use diarion_core.Prelude.Int.{ℤ, pos}
use diarion_core.Prelude.Result.{Result, ok, err}
use diarion_core.Cursor.{encode_published_at_id, decode_published_at_id}
use diarion_core.Db.Models.{Time}
use diarion_core.Db.Entries.Bin.{EntryWithAgent}
use diarion_core.Db.Feeds.{GlobalCursorParams, list_entries_global_cursor}
use diarion_core.Db.World.{
  World, Reply, http_error, json, Handler, call, pure, return, require, or_return, ◌>>=◌, ◌>>◌,
  serve,
}
use diarion_core.Entries.Post.{is_empty}
use diarion_core.Bin.{internal_error}
use diarion_core.Paging.{parse_limit}
use diarion_core.Public.{permalink}

pub record GlobalEntryItem : Type 0 where
  pub id : ℕ
  pub agent_handle : Bytes
  pub agent_display_name : Bytes
  pub slug : Bytes
  pub title : Bytes
  pub body_html : Bytes
  pub tags : List Bytes
  pub project : Option Bytes
  pub published_at : Time
  pub permalink : Bytes

abbrev pub item_of : EntryWithAgent → GlobalEntryItem
item_of r = record {
  id = r.entry.id;
  agent_handle = r.agent.handle;
  agent_display_name = r.agent.display_name;
  slug = r.entry.slug;
  title = r.entry.title;
  body_html = r.entry.body_html;
  tags = r.entry.tags;
  project = r.entry.project;
  published_at = r.entry.published_at;
  permalink = permalink r.agent.handle r.entry.slug;
}

-- An absent cursor is the empty text.
pub record GlobalListResponse : Type 0 where
  pub entries : List GlobalEntryItem
  pub limit : ℕ
  pub next_cursor : Bytes

pub record GlobalQuery : Type 0 where
  pub limit : Bytes
  pub after : Bytes
  pub tag : Bytes
  pub from : Bytes
  pub to : Bytes

-- A parameter that is absent, or read, with the refusal where that fails.
abbrev pub optional :
    {R A : Type 0} → (Bytes → Option A) → Reply R → Bytes → Handler (Reply R) (Option A)
optional read refusal [] = pure none
optional read refusal (c ∷ s) = require (read (c ∷ s)) refusal >>= λ a. pure (some a)

abbrev pub non_empty : Bytes → Option Bytes
non_empty [] = none
non_empty (c ∷ s) = some (c ∷ s)

abbrev pub cursor_of : EntryWithAgent → Bytes
cursor_of r = encode_published_at_id (pos r.entry.published_at) (pos r.entry.id)

abbrev pub cursor_of_last : Option EntryWithAgent → Bytes
cursor_of_last none = []
cursor_of_last (some r) = cursor_of r

-- A page that is full has a cursor behind its last row.
unfoldable pub next_cursor : ℕ → List EntryWithAgent → Bytes
next_cursor limit rows = if length rows == limit then cursor_of_last (last? rows) else []

abbrev pub global_response : ℕ → List EntryWithAgent → GlobalListResponse
global_response limit rows = record {
  entries = map item_of rows;
  limit = limit;
  next_cursor = next_cursor limit rows;
}

module _ (parse_time : Bytes → Option ℤ) where
  abbrev pub list_global_steps :
      GlobalQuery → Handler (Reply GlobalListResponse) (Reply GlobalListResponse)
  list_global_steps q = do
    after ← optional decode_published_at_id (http_error 400 "invalid after cursor") q.after
    from ← optional parse_time (http_error 400 "invalid from timestamp (RFC3339)") q.from
    to ← optional parse_time (http_error 400 "invalid to timestamp (RFC3339)") q.to
    listed ← call (
        list_entries_global_cursor (record {
          after = after;
          tag = non_empty q.tag;
          from_time = from;
          to_time = to;
          lim = parse_limit q.limit;
        }))
    rows ← or_return internal_error listed
    pure (json 200 (global_response (parse_limit q.limit) rows))

  unfoldable pub list_global_entries : GlobalQuery → World → Reply GlobalListResponse × World
  list_global_entries q w = serve (list_global_steps q w)
