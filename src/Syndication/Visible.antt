-- ===== src/Syndication/Visible.antt =====
-- What the sitemap names, with other requests and failures at any moment.
use diarion_core.Prelude.{◌≡◌, subst, Bool, true, some, List, ◌++◌, arith, All, Bytes, codes}
use diarion_core.Prelude.Result.{ok}
use diarion_core.Db.Models.{Db, Time, Agent}
use diarion_core.Db.Table.{select_where, order_by}
use diarion_core.Db.Table.Page.{select_where-holds}
use diarion_core.Db.Table.Sorted.{order_by-All}
use diarion_core.Db.Entries.Bin.{EntryWithAgent, join_agents}
use diarion_core.Db.Feeds.{
  is_public, is_visible, text_before, later_published, list_agents_for_sitemap,
  list_entries_for_sitemap,
}
use diarion_core.Db.World.{World, Reply, http_error, json, seen}
use diarion_core.Db.World.Ran.{Ran, call-Ran}
use diarion_core.Db.Outcome.{Outcome, require_step, or_return_step, call_step}
use diarion_core.Entries.Accepted.{IsRefusal, Refuses, serve_or_refused}
use diarion_core.Bin.{internal_error}
use diarion_core.Syndication.{Handlers, Document, site_urls, sitemap_steps, sitemap}

-- What was selected still holds of the rows in order.
ordered-holds :
    {A : Type 0} (before : A → A → Bool) (p : A → Bool) (xs ys : List A)
    → order_by before (select_where p xs) ≡ ys
    → All (λ x. p x ≡ true) ys
ordered-holds before p xs ys e =
    subst (All (λ x. p x ≡ true)) e
      (order_by-All before (λ x. p x ≡ true) (select_where p xs) (select_where-holds p xs))

list_agents-public :
    (now : Time) (db : Db) {rows : List Agent} {db' : Db}
    → list_agents_for_sitemap now db ≡ (ok rows, db')
    → All (λ a. is_public a ≡ true) rows
unfolding list_agents_for_sitemap
list_agents-public now db {rows} h =
    ordered-holds (λ a b. text_before a.handle b.handle) is_public db.agents rows cc

list_entries-visible :
    (now : Time) (db : Db) {rows : List EntryWithAgent} {db' : Db}
    → list_entries_for_sitemap now db ≡ (ok rows, db')
    → All (λ r. is_visible r ≡ true) rows
unfolding list_entries_for_sitemap
list_entries-visible now db {rows} h =
    ordered-holds later_published is_visible (join_agents db.agents db.entries) rows cc

-- An answer of Sitemap.
pub data SiteShown (h : Handlers) (w : World) : Reply Document → World → Type 0 where
  refused : {w' : World} (x : Reply Document) → IsRefusal x → SiteShown h w x w'
  shown :
      {w' : World} (agents : List Agent) (entries : List EntryWithAgent) (body : Bytes) (w1 : World)
      → Ran list_agents_for_sitemap w agents w1
      → Ran list_entries_for_sitemap w1 entries w'
      → All (λ a. is_public a ≡ true) agents
      → All (λ r. is_visible r ≡ true) entries
      → h.marshal_indent (site_urls h agents entries) ≡ some body
      → SiteShown h w
          (json 200 (record {
            content_type = codes "application/xml; charset=utf-8";
            body = h.xml_header ++ body;
          }))
          w'

sitemap_steps-SiteShown :
    (h : Handlers) (w : World) → Outcome (SiteShown h w) (Refuses Document) (sitemap_steps h w)
sitemap_steps-SiteShown h w =
    let S = Refuses Document in
    call_step _ S list_agents_for_sitemap _ w (λ found w1 at_agents.
      or_return_step _ S internal_error found _ w1 (λ e. omega arith)
        (λ agents is_agents. call_step _ S list_entries_for_sitemap _ w1 (λ listed w2 at_entries.
          or_return_step _ S internal_error listed _ w2 (λ e. omega arith)
            (λ entries is_entries.
              require_step _ S (h.marshal_indent (site_urls h agents entries))
                (http_error 500 "internal error") _ w2 (omega arith)
                (λ body written.
                  let f : Ran list_agents_for_sitemap w agents w1 =
                    call-Ran {X = Reply Document} list_agents_for_sitemap w
                      (rw is_agents at at_agents) in
                  let g : Ran list_entries_for_sitemap w1 entries w2 =
                    call-Ran {X = Reply Document} list_entries_for_sitemap w1
                      (rw is_entries at at_entries) in
                  shown agents entries body w1 f g (list_agents-public w1.now (seen w) f.ran)
                    (list_entries-visible w2.now (seen w1) g.ran) written)))))

-- Whatever comes in between, Sitemap answers with an error status, or with 200: then its text is
-- the XML of the front page, of the agents that the first statement found, which are neither
-- suspended nor in the bin, and of the entries that the second found, which are live entries of such
-- agents.
pub sitemap-SiteShown :
    (h : Handlers) (w : World) (reply : Reply Document) (w' : World)
    → sitemap h w ≡ (reply, w')
    → SiteShown h w reply w'
unfolding sitemap
sitemap-SiteShown h w reply w' e =
    serve_or_refused Document (SiteShown h w) (sitemap_steps h w) (λ x w1 r. refused x r)
      (sitemap_steps-SiteShown h w) e
