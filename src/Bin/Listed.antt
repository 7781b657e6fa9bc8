-- ===== src/Bin/Listed.antt =====
-- What the lists of the bin show, with other requests and failures at any moment.
use diarion_core.Prelude.{
  ℕ, ◌≤◌, ◌≡◌, ap, subst, true, Option, some, List, arith, length, map, take, drop, Bool, All,
  Bytes,
}
use diarion_core.Prelude.Result.{Result, ok}
use diarion_core.Db.Models.{Db, Time}
use diarion_core.Db.Table.{order_by, select_where}
use diarion_core.Db.Table.Page.{page-holds, take-len}
use diarion_core.Db.Entries.Bin.{
  EntryWithAgent, in_bin_of, join_agents, list_binned_entries_by_owner,
  count_binned_entries_by_owner,
}
use diarion_core.Db.World.{World, DbError, Reply, http_error, json, seen}
use diarion_core.Db.World.Ran.{Ran, call-Ran}
use diarion_core.Db.Outcome.{Outcome, require_step, or_return_step, call_step}
use diarion_core.Middleware.{AuthUser}
use diarion_core.Entries.Accepted.{IsRefusal, Refuses, serve_or_refused}
use diarion_core.Bin.{internal_error}
use diarion_core.Bin.Lists.{
  BinnedEntryItem, Page, entry_item, page_of, list_entries_steps, list_entries,
}
use diarion_core.Paging.{parse_pagination}
use diarion_core.Paging.Bounds.{parse_pagination_bounds}

-- Rows of a user's bin, at most so many.
pub record OwnPage (owner limit : ℕ) (rows : List EntryWithAgent) : Type 0 where
  pub own : All (λ r. in_bin_of owner r ≡ true) rows
  pub few : length rows ≤ limit

-- An answer to the list of binned entries.
pub data Listed (attached : Option AuthUser) (raw_limit raw_offset : Bytes) (w : World)
    : Reply (Page BinnedEntryItem) → World → Type 0 where
  refused :
      {w' : World} (x : Reply (Page BinnedEntryItem))
      → IsRefusal x
      → Listed attached raw_limit raw_offset w x w'
  listed :
      {w' : World} (user : AuthUser) (rows : List EntryWithAgent) (total : ℕ) (w1 : World)
      → attached ≡ some user
      → Ran
          (list_binned_entries_by_owner user.user.id
            (parse_pagination raw_limit raw_offset).0
            (parse_pagination raw_limit raw_offset).1)
          w
          rows
          w1
      → Ran (count_binned_entries_by_owner user.user.id) w1 total w'
      → OwnPage user.user.id 100 rows
      → Listed attached raw_limit raw_offset w
          (json 200 (page_of (map entry_item rows) (parse_pagination raw_limit raw_offset) total))
          w'

page-OwnPage :
    (owner limit offset : ℕ) (before : EntryWithAgent → EntryWithAgent → Bool) (db : Db)
    {rows : List EntryWithAgent}
    → limit ≤ 100
    → Path
        (Result DbError (List EntryWithAgent))
        (ok (
          take limit (
            drop offset (
              order_by before
                (select_where (in_bin_of owner) (join_agents db.agents db.entries))))))
        (ok rows)
    → OwnPage owner 100 rows
page-OwnPage owner limit offset before db {rows} small h =
    let kept =
      order_by before (select_where (in_bin_of owner) (join_agents db.agents db.entries)) in
    let same : take limit (drop offset kept) ≡ rows = cc in
    subst (OwnPage owner 100) same (record {
      own = page-holds before (in_bin_of owner) limit offset (join_agents db.agents db.entries);
      few = omega (arith, small, take-len limit (drop offset kept));
    })

listed-OwnPage :
    (owner limit offset : ℕ) (now : Time) (db : Db) {rows : List EntryWithAgent} {db' : Db}
    → limit ≤ 100
    → list_binned_entries_by_owner owner limit offset now db ≡ (ok rows, db')
    → OwnPage owner 100 rows
unfolding list_binned_entries_by_owner
listed-OwnPage owner limit offset now db small h =
    page-OwnPage owner limit offset _ db small (ap (λ p. p.0) h)

list_entries_steps-Listed :
    (attached : Option AuthUser) (raw_limit raw_offset : Bytes) (w : World)
    → Outcome
        (Listed attached raw_limit raw_offset w)
        (Refuses (Page BinnedEntryItem))
        (list_entries_steps attached raw_limit raw_offset w)
list_entries_steps-Listed attached raw_limit raw_offset w =
    let S = Refuses (Page BinnedEntryItem) in
    let bounds = parse_pagination raw_limit raw_offset in
    require_step _ S attached (http_error 401 "unauthorized") _ w (omega arith) (λ u is_user.
      call_step _ S (list_binned_entries_by_owner u.user.id bounds.0 bounds.1) _ w
        (λ found w1 at_rows.
          or_return_step _ S internal_error found _ w1 (λ e. omega arith)
            (λ rows is_rows.
              call_step _ S (count_binned_entries_by_owner u.user.id) _ w1 (λ counted w2 at_count.
                or_return_step _ S internal_error counted _ w2 (λ e. omega arith)
                  (λ total is_total.
                    let q = list_binned_entries_by_owner u.user.id bounds.0 bounds.1 in
                    let f : Ran q w rows w1 =
                      call-Ran {X = Reply (Page BinnedEntryItem)} q w (rw is_rows at at_rows) in
                    listed u rows total w1 is_user f
                      (call-Ran {X = Reply (Page BinnedEntryItem)}
                        (count_binned_entries_by_owner u.user.id) w1 (rw is_total at at_count))
                      (listed-OwnPage u.user.id bounds.0 bounds.1 w1.now (seen w)
                        (parse_pagination_bounds raw_limit raw_offset).1 f.ran))))))

-- Whatever comes in between, the list of binned entries answers with an error status, or with 200:
-- then a user is attached, and the items are the rows that the first statement found for that user
-- with the limit and the offset of the request, as read: at most 100, each an entry in the bin whose
-- agent that user owns. The total is what the second statement counted.
pub list_entries-Listed :
    (attached : Option AuthUser) (raw_limit raw_offset : Bytes) (w : World)
    (reply : Reply (Page BinnedEntryItem)) (w' : World)
    → list_entries attached raw_limit raw_offset w ≡ (reply, w')
    → Listed attached raw_limit raw_offset w reply w'
unfolding list_entries
list_entries-Listed attached raw_limit raw_offset w reply w' e =
    serve_or_refused (Page BinnedEntryItem) (Listed attached raw_limit raw_offset w)
      (list_entries_steps attached raw_limit raw_offset w) (λ x w1 r. refused x r)
      (list_entries_steps-Listed attached raw_limit raw_offset w) e
