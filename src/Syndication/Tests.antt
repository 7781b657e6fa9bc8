-- ===== src/Syndication/Tests.antt =====
-- The sitemap and the feed of Ann's agent, with writers that show the URLs and titles one after
-- another.
use diarion_core.Prelude.{◌≡◌, refl, some, Option, List, [], ◌∷◌, ◌++◌, Bytes, codes, bytes_eq}
use diarion_core.Stdlib.Strings.{to_lower}
use diarion_core.Db.Sample.{sample_db}
use diarion_core.Db.Table.{first_where, select_where, order_by, insert_by}
use diarion_core.Db.Agents.{get_agent_by_handle}
use diarion_core.Db.Entries.Bin.{join_agents}
use diarion_core.Db.Feeds.{
  list_agents_for_sitemap, list_entries_for_sitemap, list_entries_for_feed_by_agent,
}
use diarion_core.Db.World.{World, json, call, quiet}
use diarion_core.Public.{find_agent}
use diarion_core.Feeds.{GorillaFeed, GorillaItem, render, content_type_for_format}
use diarion_core.Syndication.{
  SitemapUrl, Handlers, new_handlers, trim_right_slash, sitemap, agent_feed, agent_feed_json,
}
use diarion_core.Syndication.Visible.{SiteShown, sitemap-SiteShown}

abbrev all_locs : List SitemapUrl → Bytes
all_locs [] = []
all_locs (u ∷ us) = u.loc ++ (codes " " ++ all_locs us)

abbrev all_titles : List GorillaItem → Bytes
all_titles [] = []
all_titles (it ∷ its) = it.title ++ all_titles its

abbrev show_titles : GorillaFeed → Option Bytes
show_titles f = some (all_titles f.items)

abbrev handlers : Handlers
handlers =
    new_handlers (codes "https://d.app//")
      (record { to_rss = show_titles; to_atom = show_titles; to_json = show_titles })
      (codes "<?xml?>") (λ us. some (all_locs us))

abbrev start : World
start = quiet 100 sample_db

sitemap-SiteShown_example :
    SiteShown handlers start (sitemap handlers start).0 (sitemap handlers start).1
sitemap-SiteShown_example =
    sitemap-SiteShown handlers start (sitemap handlers start).0 (sitemap handlers start).1 refl

sitemap_shown :
    (sitemap handlers start).0
    ≡ json 200 (record {
      content_type = codes "application/xml; charset=utf-8";
      body = codes "<?xml?>https://d.app/ https://d.app/ada https://d.app/ada/hello ";
    })
unfolding sitemap new_handlers trim_right_slash call list_agents_for_sitemap
    list_entries_for_sitemap join_agents first_where select_where order_by insert_by
sitemap_shown = refl

feed_shown :
    (agent_feed_json handlers (codes "ADA") start).0
    ≡ json 200 (record {
      content_type = codes "application/feed+json; charset=utf-8";
      body = codes "Hello";
    })
unfolding agent_feed new_handlers call find_agent get_agent_by_handle to_lower bytes_eq
    list_entries_for_feed_by_agent join_agents first_where select_where order_by insert_by render
    content_type_for_format
feed_shown = refl
