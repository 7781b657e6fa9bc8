-- ===== src/Feeds.antt =====
-- internal/feeds/feeds.go: feeds in three formats over github.com/gorilla/feeds, whose types are the
-- fields that are set here, and whose writers are parameters. A time that is not set is `none`.
use diarion_core.Prelude.{Option, none, List, map, Bytes, codes, bytes_eq, if◌then◌else◌}
use diarion_core.Db.Models.{Time}

-- A format is a text.
abbrev pub format_rss : Bytes
format_rss = codes "rss"

abbrev pub format_atom : Bytes
format_atom = codes "atom"

abbrev pub format_json : Bytes
format_json = codes "json"

pub record Author : Type 0 where
  pub name : Bytes
  pub email : Bytes

pub record Item : Type 0 where
  pub id : Bytes
  pub title : Bytes
  pub link : Bytes
  pub html : Bytes
  pub author : Option Author
  pub created : Option Time
  pub updated : Option Time
  pub categories : List Bytes

pub record Feed : Type 0 where
  pub title : Bytes
  pub link : Bytes
  pub description : Bytes
  pub author : Option Author
  pub updated : Option Time
  pub items : List Item

-- Items and feeds of the library.
pub record GorillaItem : Type 0 where
  pub id : Bytes
  pub title : Bytes
  pub href : Bytes
  pub content : Bytes
  pub author : Option Author
  pub created : Option Time
  pub updated : Option Time

pub record GorillaFeed : Type 0 where
  pub title : Bytes
  pub href : Bytes
  pub description : Bytes
  pub author : Option Author
  pub updated : Option Time
  pub items : List GorillaItem

-- Its writers, `none` for an error.
pub record Gorilla : Type 0 where
  pub to_rss : GorillaFeed → Option Bytes
  pub to_atom : GorillaFeed → Option Bytes
  pub to_json : GorillaFeed → Option Bytes

abbrev pub to_gorilla_item : Item → GorillaItem
to_gorilla_item it = record {
  id = it.id;
  title = it.title;
  href = it.link;
  content = it.html;
  author = it.author;
  created = it.created;
  updated = it.updated;
}

abbrev pub to_gorilla_feed : Feed → GorillaFeed
to_gorilla_feed f = record {
  title = f.title;
  href = f.link;
  description = f.description;
  author = f.author;
  updated = f.updated;
  items = map to_gorilla_item f.items;
}

unfoldable pub render : Gorilla → Bytes → Feed → Option Bytes
render g format f =
    let gf = to_gorilla_feed f in
    if bytes_eq format format_rss
    then g.to_rss gf
    else if bytes_eq format format_atom
    then g.to_atom gf
    else if bytes_eq format format_json
    then g.to_json gf
    else none

unfoldable pub content_type_for_format : Bytes → Bytes
content_type_for_format format =
    if bytes_eq format format_rss
    then codes "application/rss+xml; charset=utf-8"
    else if bytes_eq format format_atom
    then codes "application/atom+xml; charset=utf-8"
    else if bytes_eq format format_json
    then codes "application/feed+json; charset=utf-8"
    else codes "application/octet-stream"
