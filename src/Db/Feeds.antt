-- ===== src/Db/Feeds.antt =====
-- internal/db/dbgen/feeds.sql.go. A timestamp is a number of nanoseconds since 1970; the cursor's time
-- and id are any int64. Full text search is a parameter, a float32 rank its bit pattern, which
-- orders the ranks of ts_rank, all of them 0 or more. Handles are ordered byte by byte.
use diarion_core.Prelude.{
  ℕ, Bool, true, false, not, ◌&&◌, ◌||◌, Option, none, some, List, [], ◌∷◌, ltb, ◌==◌, any, take,
  drop, map, Bytes, bytes_eq,
}
use diarion_core.Prelude.Int.{ℤ, pos, negsuc}
use diarion_core.Prelude.Result.{ok}
use diarion_core.Db.Models.{Agent, Entry}
use diarion_core.Db.Table.{select_where, order_by}
use diarion_core.Db.Agents.{is_some, same_handle}
use diarion_core.Db.Entries.{is_live}
use diarion_core.Db.Entries.Bin.{EntryWithAgent, join_agents}
use diarion_core.Db.World.{Query}

-- `removed_at IS NULL AND suspended_at IS NULL`.
abbrev pub is_public : Agent → Bool
is_public a = not (is_some a.removed_at) && not (is_some a.suspended_at)

-- The conditions on the entry and on its agent that the public lists share.
abbrev pub is_visible : EntryWithAgent → Bool
is_visible r = is_live r.entry && is_public r.agent

-- `ORDER BY e.published_at DESC, e.id DESC`.
unfoldable pub newer : EntryWithAgent → EntryWithAgent → Bool
newer r s =
    ltb s.entry.published_at r.entry.published_at
    || (s.entry.published_at == r.entry.published_at && ltb s.entry.id r.entry.id)

-- A byte order of texts.
unfoldable pub text_before : Bytes → Bytes → Bool
text_before [] [] = false
text_before [] (d ∷ t) = true
text_before (c ∷ s) [] = false
text_before (c ∷ s) (d ∷ t) = ltb c d || (c == d && text_before s t)

unfoldable pub list_agents_for_sitemap : Query (List Agent)
unfolding text_before
list_agents_for_sitemap now db =
    (ok (order_by (λ a b. text_before a.handle b.handle) (select_where is_public db.agents)), db)

-- Whether the agent is live is not asked here.
unfoldable pub list_entries_for_feed_by_agent : ℕ → ℕ → Query (List EntryWithAgent)
unfolding newer
list_entries_for_feed_by_agent agent limit now db = (
  ok (
      take limit (
        order_by newer (
          select_where (λ r. r.agent.id == agent && is_live r.entry)
            (join_agents db.agents db.entries)))),
  db,
)

unfoldable pub list_entries_for_feed_by_tag : Bytes → ℕ → Query (List EntryWithAgent)
unfolding newer
list_entries_for_feed_by_tag tag limit now db = (
  ok (
      take limit (
        order_by newer (
          select_where (λ r. is_visible r && any (bytes_eq tag) r.entry.tags)
            (join_agents db.agents db.entries)))),
  db,
)

unfoldable pub list_entries_for_feed_global : ℕ → Query (List EntryWithAgent)
unfolding newer
list_entries_for_feed_global limit now db = (
  ok (take limit (order_by newer (select_where is_visible (join_agents db.agents db.entries)))),
  db,
)

abbrev pub later_published : EntryWithAgent → EntryWithAgent → Bool
later_published r s = ltb s.entry.published_at r.entry.published_at

unfoldable pub list_entries_for_sitemap : Query (List EntryWithAgent)
list_entries_for_sitemap now db =
    (ok (order_by later_published (select_where is_visible (join_agents db.agents db.entries))), db)

-- `m < n` and `m = n` for a column and a parameter.
abbrev pub below : ℕ → ℤ → Bool
below m (pos n) = ltb m n
below m (negsuc n) = false

abbrev pub equals : ℕ → ℤ → Bool
equals m (pos n) = m == n
equals m (negsuc n) = false

-- `(e.published_at, e.id) < ($1, $2)`, with a NULL cursor for the first page.
unfoldable pub is_after : Option (ℤ × ℤ) → EntryWithAgent → Bool
is_after none r = true
is_after (some (nanos, id)) r =
    below r.entry.published_at nanos || (equals r.entry.published_at nanos && below r.entry.id id)

abbrev pub has_tag : Option Bytes → EntryWithAgent → Bool
has_tag none r = true
has_tag (some tag) r = any (bytes_eq tag) r.entry.tags

abbrev pub not_before : Option ℤ → EntryWithAgent → Bool
not_before none r = true
not_before (some t) r = not (below r.entry.published_at t)

abbrev pub up_to : Option ℤ → EntryWithAgent → Bool
up_to none r = true
up_to (some t) r = below r.entry.published_at t || equals r.entry.published_at t

pub record GlobalCursorParams : Type 0 where
  pub after : Option (ℤ × ℤ)
  pub tag : Option Bytes
  pub from_time : Option ℤ
  pub to_time : Option ℤ
  pub lim : ℕ

-- The conditions other than the cursor's.
unfoldable pub matches : GlobalCursorParams → EntryWithAgent → Bool
matches arg r =
    is_visible r && has_tag arg.tag r && not_before arg.from_time r && up_to arg.to_time r

unfoldable pub list_entries_global_cursor : GlobalCursorParams → Query (List EntryWithAgent)
list_entries_global_cursor arg now db = (
  ok (
      take arg.lim (
        order_by newer (
          select_where (λ r. matches arg r && is_after arg.after r)
            (join_agents db.agents db.entries)))),
  db,
)

-- PostgreSQL's full text search over an entry, for the text of a query.
pub record Fts : Type 0 where
  pub is_match : Bytes → Entry → Bool
  pub rank : Bytes → Entry → ℕ
  pub headline : Bytes → Entry → Bytes

pub record SearchRow : Type 0 where
  pub found : EntryWithAgent
  pub rank : ℕ
  pub headline : Bytes

pub record SearchCursorParams : Type 0 where
  pub after : Option (ℕ × ℤ)
  pub tag : Option Bytes
  pub agent_handle : Option Bytes
  pub from_time : Option ℤ
  pub to_time : Option ℤ
  pub lim : ℕ
  pub query : Bytes

-- `ORDER BY rank DESC, e.id DESC`.
unfoldable pub higher : SearchRow → SearchRow → Bool
higher r s = ltb s.rank r.rank || (s.rank == r.rank && ltb s.found.entry.id r.found.entry.id)

unfoldable pub is_after_rank : Option (ℕ × ℤ) → SearchRow → Bool
is_after_rank none r = true
is_after_rank (some (rank, id)) r = ltb r.rank rank || (r.rank == rank && below r.found.entry.id id)

abbrev pub by_agent : Option Bytes → EntryWithAgent → Bool
by_agent none r = true
by_agent (some h) r = same_handle h r.agent

module _ (fts : Fts) where
  abbrev pub search_row : Bytes → EntryWithAgent → SearchRow
  search_row q r = record {
    found = r;
    rank = fts.rank q r.entry;
    headline = fts.headline q r.entry;
  }

  unfoldable pub search_entries_cursor : SearchCursorParams → Query (List SearchRow)
  search_entries_cursor arg now db = (
    ok (
        take arg.lim (
          order_by higher (
            select_where (is_after_rank arg.after) (
              map (search_row arg.query) (
                select_where
                  (λ r.
                    is_visible r
                    && fts.is_match arg.query r.entry
                    && has_tag arg.tag r
                    && by_agent arg.agent_handle r
                    && not_before arg.from_time r
                    && up_to arg.to_time r)
                  (join_agents db.agents db.entries)))))),
    db,
  )

  -- SearchEntries of entries.sql.go, which asks nothing of the agent.
  abbrev pub higher_newer : Bytes → Entry → Entry → Bool
  higher_newer q e f =
      ltb (fts.rank q f) (fts.rank q e)
      || (fts.rank q f == fts.rank q e && ltb f.published_at e.published_at)

  unfoldable pub search_entries : Bytes → ℕ → ℕ → Query (List Entry)
  search_entries q limit offset now db = (
    ok (
        take limit (
          drop offset (
            order_by (higher_newer q)
              (select_where (λ e. is_live e && fts.is_match q e) db.entries)))),
    db,
  )
