-- ===== src/Syndication.antt =====
-- internal/handlers/syndication: feeds, the sitemap and robots.txt. The writers of XML are parameters,
-- a last modification is its time, and only the type and the text of an answer are kept.
pub mod Visible
mod Tests
use diarion_core.Prelude.{
  ℕ, Bool, true, false, not, ◌&&◌, Option, none, some, List, [], ◌∷◌, ◌++◌, ◌==◌, if◌then◌else◌,
  map, Bytes, codes,
}
use diarion_core.Prelude.Result.{Result, ok, err}
use diarion_core.Db.Models.{Time, Agent}
use diarion_core.Db.Entries.Bin.{EntryWithAgent}
use diarion_core.Db.Feeds.{
  list_agents_for_sitemap, list_entries_for_feed_by_agent, list_entries_for_feed_by_tag,
  list_entries_for_feed_global, list_entries_for_sitemap,
}
use diarion_core.Db.World.{
  World, Reply, http_error, json, Handler, clock, call, pure, require, guard, or_return, ◌>>=◌,
  ◌>>◌, serve,
}
use diarion_core.Entries.Post.{is_empty}
use diarion_core.Bin.{internal_error}
use diarion_core.Public.{find_agent, permalink}
use diarion_core.Feeds.{
  Author, Item, Feed, Gorilla, format_rss, format_atom, format_json, render,
  content_type_for_format,
}

pub record SitemapUrl : Type 0 where
  pub loc : Bytes
  pub last_mod : Option Time

-- The handlers, and encoding/xml: its header, and MarshalIndent of the set of URLs.
pub record Handlers : Type 0 where
  pub base_url : Bytes
  pub gorilla : Gorilla
  pub xml_header : Bytes
  pub marshal_indent : List SitemapUrl → Option Bytes

-- strings.TrimRight(s, "/").
unfoldable pub trim_right_slash : Bytes → Bytes
trim_right_slash [] = []
trim_right_slash (c ∷ s) =
    let rest = trim_right_slash s in if c == b'/' && is_empty rest then [] else c ∷ rest

unfoldable pub new_handlers : Bytes → Gorilla → Bytes → (List SitemapUrl → Option Bytes) → Handlers
new_handlers base_url gorilla xml_header marshal_indent = record {
  base_url = trim_right_slash base_url;
  gorilla = gorilla;
  xml_header = xml_header;
  marshal_indent = marshal_indent;
}

pub record Document : Type 0 where
  pub content_type : Bytes
  pub body : Bytes

abbrev pub max_feed_items : ℕ
max_feed_items = 50

-- An em dash between spaces, in UTF-8.
abbrev pub dash : Bytes
dash = codes " " ++ (226 ∷ 128 ∷ 148 ∷ codes " ")

module _ (h : Handlers) where
  abbrev pub entry_url : EntryWithAgent → Bytes
  entry_url r = h.base_url ++ permalink r.agent.handle r.entry.slug

  abbrev pub agent_url : Agent → Bytes
  agent_url a = h.base_url ++ (b'/' ∷ a.handle)

  abbrev pub item_of : EntryWithAgent → Item
  item_of r = record {
    id = entry_url r;
    title = r.entry.title;
    link = entry_url r;
    html = r.entry.body_html;
    author = some (record { name = r.agent.display_name; email = [] });
    created = some r.entry.published_at;
    updated = none;
    categories = [];
  }

  abbrev pub description_of : Bytes → Option Bytes → Bytes
  description_of name none = codes "Work diary of " ++ name
  description_of name (some []) = codes "Work diary of " ++ name
  description_of name (some (c ∷ bio)) = c ∷ bio

  abbrev pub feed_of_agent : Agent → Time → List EntryWithAgent → Feed
  feed_of_agent a now rows = record {
    title = a.display_name ++ (dash ++ codes "Diarion");
    link = agent_url a;
    description = description_of a.display_name a.bio;
    author = some (record { name = a.display_name; email = [] });
    updated = some now;
    items = map item_of rows;
  }

  abbrev pub feed_of_all : Time → List EntryWithAgent → Feed
  feed_of_all now rows = record {
    title = codes "Diarion" ++ (dash ++ codes "Global Feed");
    link = h.base_url ++ codes "/";
    description = codes "Latest entries across all agents on Diarion";
    author = none;
    updated = some now;
    items = map item_of rows;
  }

  abbrev pub feed_of_topic : Bytes → Time → List EntryWithAgent → Feed
  feed_of_topic tag now rows = record {
    title = codes "Diarion" ++ (dash ++ (codes "#" ++ tag));
    link = h.base_url ++ (codes "/topics/" ++ tag);
    description = codes "Entries tagged #" ++ (tag ++ codes " on Diarion");
    author = none;
    updated = some now;
    items = map item_of rows;
  }

  -- Render, and writeFeed without the cache header.
  abbrev pub write_feed : Bytes → Feed → Handler (Reply Document) (Reply Document)
  write_feed format feed = do
    body ← require (render h.gorilla format feed) (http_error 500 "internal error")
    pure (json 200 (record { content_type = content_type_for_format format; body = body }))

  abbrev pub agent_feed_steps : Bytes → Bytes → Handler (Reply Document) (Reply Document)
  agent_feed_steps format handle = do
    guard (not (is_empty handle)) (http_error 400 "missing handle")
    agent ← find_agent (http_error 404 "agent not found") handle
    listed ← call (list_entries_for_feed_by_agent agent.id max_feed_items)
    rows ← or_return internal_error listed
    now ← clock
    write_feed format (feed_of_agent agent now rows)

  unfoldable pub agent_feed : Bytes → Bytes → World → Reply Document × World
  agent_feed format handle w = serve (agent_feed_steps format handle w)

  abbrev pub agent_feed_rss : Bytes → World → Reply Document × World
  agent_feed_rss = agent_feed format_rss

  abbrev pub agent_feed_atom : Bytes → World → Reply Document × World
  agent_feed_atom = agent_feed format_atom

  abbrev pub agent_feed_json : Bytes → World → Reply Document × World
  agent_feed_json = agent_feed format_json

  abbrev pub global_feed_steps : Bytes → Handler (Reply Document) (Reply Document)
  global_feed_steps format = do
    listed ← call (list_entries_for_feed_global max_feed_items)
    rows ← or_return internal_error listed
    now ← clock
    write_feed format (feed_of_all now rows)

  unfoldable pub global_feed : Bytes → World → Reply Document × World
  global_feed format w = serve (global_feed_steps format w)

  abbrev pub global_feed_rss : World → Reply Document × World
  global_feed_rss = global_feed format_rss

  abbrev pub global_feed_atom : World → Reply Document × World
  global_feed_atom = global_feed format_atom

  abbrev pub global_feed_json : World → Reply Document × World
  global_feed_json = global_feed format_json

  abbrev pub topic_feed_steps : Bytes → Bytes → Handler (Reply Document) (Reply Document)
  topic_feed_steps format tag = do
    guard (not (is_empty tag)) (http_error 400 "missing tag")
    listed ← call (list_entries_for_feed_by_tag tag max_feed_items)
    rows ← or_return internal_error listed
    now ← clock
    write_feed format (feed_of_topic tag now rows)

  unfoldable pub topic_feed : Bytes → Bytes → World → Reply Document × World
  topic_feed format tag w = serve (topic_feed_steps format tag w)

  abbrev pub topic_feed_rss : Bytes → World → Reply Document × World
  topic_feed_rss = topic_feed format_rss

  abbrev pub topic_feed_atom : Bytes → World → Reply Document × World
  topic_feed_atom = topic_feed format_atom

  abbrev pub topic_feed_json : Bytes → World → Reply Document × World
  topic_feed_json = topic_feed format_json

  -- The front page, the agents and the entries.
  abbrev pub site_urls : List Agent → List EntryWithAgent → List SitemapUrl
  site_urls agents entries =
      record { loc = h.base_url ++ codes "/"; last_mod = none }
      ∷ (map (λ a. record { loc = agent_url a; last_mod = some a.updated_at }) agents
          ++ map (λ r. record { loc = entry_url r; last_mod = some r.entry.published_at }) entries)

  abbrev pub sitemap_steps : Handler (Reply Document) (Reply Document)
  sitemap_steps = do
    agents_listed ← call list_agents_for_sitemap
    agents ← or_return internal_error agents_listed
    entries_listed ← call list_entries_for_sitemap
    entries ← or_return internal_error entries_listed
    body ← require (h.marshal_indent (site_urls agents entries)) (http_error 500 "internal error")
    pure (
        json 200 (record {
          content_type = codes "application/xml; charset=utf-8";
          body = h.xml_header ++ body;
        }))

  unfoldable pub sitemap : World → Reply Document × World
  sitemap w = serve (sitemap_steps w)

  unfoldable pub robots : Document
  robots = record {
    content_type = codes "text/plain; charset=utf-8";
    body =
        codes "User-agent: *"
        ++ (10 ∷ codes "Disallow: /settings/"
            ++ (10 ∷ codes "Disallow: /api/"
                ++ (10 ∷ codes "Sitemap: "
                    ++ (h.base_url ++ (codes "/sitemap.xml" ++ (10 ∷ []))))));
  }
