-- ===== src/Public/Global/Followed.antt =====
-- A reader that follows the cursors of the global list meets every entry once.
use diarion_core.Prelude.{
  ℕ, zero, suc, ◌<◌, ◌≡◌, refl, sym, ap, subst, ◌∙◌, ◌^◌, true, ◌&&◌, Option, none, some, List, [],
  ◌∷◌, ◌++◌, append_assoc, arith, ◌==◌, if◌then◌else◌, length, length-append, take, map, All, Bytes,
  Bool-cases, inl, inr,
}
use mathlib.Core.List.{map-append}
use diarion_core.Prelude.Int.{ℤ, pos}
use diarion_core.Prelude.Result.{ok}
use diarion_core.Cursor.{decode_published_at_id}
use diarion_core.Db.Table.{select_where, order_by, select_where-select_where}
use diarion_core.Db.Table.Sorted.{
  IsSorted, AllApart, order_by-All, select_where-All, AllApart-select_where, order_by-IsSorted,
  order_by-select_where, select_where-behind, select_where-eq_self, All-at,
}
use diarion_core.Db.Entries.Bin.{EntryWithAgent, join_agents}
use diarion_core.Db.Feeds.{GlobalCursorParams, newer, is_after, matches, list_entries_global_cursor}
use diarion_core.Db.World.{World, Reply, http_error, no_body, json, go, call, call-runs}
use diarion_core.Entries.Post.{is_empty}
use diarion_core.Paging.{parse_limit}
use diarion_core.Paging.Bounds.{parse_limit_pos}
use diarion_core.Public.Global.{
  GlobalEntryItem, item_of, GlobalListResponse, GlobalQuery, optional, non_empty, cursor_of,
  next_cursor, global_response, list_global_entries,
}
use diarion_core.Public.Global.Order.{
  newer-IsStrict, DistinctIds, All-join_agents, AllApart-join_agents,
}
use diarion_core.Public.Global.Pages.{full_page, take_short, last?-append, Fits, cursor_of-ReadBack}

abbrev prepend :
    List GlobalEntryItem → Option (List GlobalEntryItem) → Option (List GlobalEntryItem)
prepend xs none = none
prepend xs (some ys) = some (xs ++ ys)

-- What a reader makes of an answer: it asks on as long as there is a cursor.
abbrev read_on :
    (Bytes → Option (List GlobalEntryItem))
    → Reply GlobalListResponse
    → Option (List GlobalEntryItem)
read_on ask (http_error code text) = none
read_on ask (no_body code) = none
read_on ask (json code r) =
    if is_empty r.next_cursor then some r.entries else prepend r.entries (ask r.next_cursor)

-- All pages from a cursor on, `none` for a failure or where the fuel runs out.
pub follow : (Bytes → Option ℤ) → GlobalQuery → ℕ → Bytes → World → Option (List GlobalEntryItem)
follow parse_time q zero after w = none
follow parse_time q (suc f) after w =
    read_on (λ cursor. follow parse_time q f cursor w)
      (list_global_entries parse_time (record q { after = after }) w).0

module _ (parse_time : Bytes → Option ℤ) (q : GlobalQuery) (w : World) (from to : Option ℤ) where
  abbrev refusal_after : Reply GlobalListResponse
  refusal_after = http_error 400 "invalid after cursor"

  abbrev arg : Option (ℤ × ℤ) → GlobalCursorParams
  arg after = record {
    after = after;
    tag = non_empty q.tag;
    from_time = from;
    to_time = to;
    lim = parse_limit q.limit;
  }

  -- The rows that the query asks for, the latest first.
  abbrev pub all_rows : List EntryWithAgent
  all_rows =
      order_by newer (select_where (matches (arg none)) (join_agents w.db.agents w.db.entries))

  page_rows :
      (after : Option (ℤ × ℤ))
      → AllApart newer (join_agents w.db.agents w.db.entries)
      → order_by newer (
          select_where
            (λ r. matches (arg after) r && is_after after r)
            (join_agents w.db.agents w.db.entries))
        ≡ select_where (is_after after) all_rows
  unfolding matches
  page_rows after apart =
      let rows = join_agents w.db.agents w.db.entries in
      rw (← select_where-select_where (matches (arg none)) (is_after after) rows) (
        order_by-select_where newer newer-IsStrict (is_after after)
          (select_where (matches (arg none)) rows)
          (AllApart-select_where newer (matches (arg none)) rows apart))

  abbrev OptionalIs : (Bytes → Option ℤ) → Reply GlobalListResponse → Bytes → Option ℤ → Type 0
  OptionalIs read refusal raw o = optional {R = GlobalListResponse} read refusal raw w ≡ (go o, w)

  -- The parameters from and to are absent or are read.
  pub record TimesRead : Type 0 where
    pub from_read :
        OptionalIs parse_time (http_error 400 "invalid from timestamp (RFC3339)") q.from from
    pub to_read : OptionalIs parse_time (http_error 400 "invalid to timestamp (RFC3339)") q.to to

  module _ (alone : w.schedule ≡ []) (distinct : DistinctIds w.db.entries) (times : TimesRead) where
    page :
        (raw : Bytes) (after : Option (ℤ × ℤ))
        → optional {R = GlobalListResponse} decode_published_at_id refusal_after raw w
          ≡ (go after, w)
        → list_global_entries parse_time (record q { after = raw }) w ≡ (
          json 200 (
              global_response
                (parse_limit q.limit)
                (take (parse_limit q.limit) (select_where (is_after after) all_rows))),
          w,
        )
    unfolding list_global_entries list_entries_global_cursor
    page raw after read =
        let apart = AllApart-join_agents w.db.agents w.db.entries distinct in
        let one : call {X = Reply GlobalListResponse} (list_entries_global_cursor (arg after)) w
            ≡ (go (ok (take (parse_limit q.limit) (select_where (is_after after) all_rows))), w) =
          call-runs _ w _ w.db alone (rw (page_rows after apart) refl) in
        rw (read, times.from_read, times.to_read, one) refl

    module _ (fits : All (λ e. (e.published_at < 2 ^ 63) × (e.id < 2 ^ 63)) w.db.entries) where
      all_rows-Fits : All Fits all_rows
      all_rows-Fits =
          let rows = join_agents w.db.agents w.db.entries in
          order_by-All newer Fits (select_where (matches (arg none)) rows) (
            select_where-All newer Fits (matches (arg none)) rows (
              All-join_agents (λ e. (e.published_at < 2 ^ 63) × (e.id < 2 ^ 63)) w.db.agents
                w.db.entries fits))

      all_rows-IsSorted : IsSorted newer all_rows
      all_rows-IsSorted = order_by-IsSorted newer newer-IsStrict _ (
          AllApart-select_where newer (matches (arg none)) _
            (AllApart-join_agents w.db.agents w.db.entries distinct))

      behind :
          (pre post : List EntryWithAgent) (z : EntryWithAgent)
          → all_rows ≡ pre ++ z ∷ post
          → select_where (is_after (some (pos z.entry.published_at, pos z.entry.id))) all_rows
            ≡ post
      unfolding is_after newer
      behind pre post z e =
          let sorted : IsSorted newer (pre ++ z ∷ post) =
            subst (IsSorted newer) e all_rows-IsSorted in
          rw e (select_where-behind newer newer-IsStrict pre z post sorted)

      follow_from :
          (f : ℕ) (done rest : List EntryWithAgent) (raw : Bytes) (after : Option (ℤ × ℤ))
          → all_rows ≡ done ++ rest
          → select_where (is_after after) all_rows ≡ rest
          → optional {R = GlobalListResponse} decode_published_at_id refusal_after raw w
            ≡ (go after, w)
          → length rest < f
          → follow parse_time q f raw w ≡ some (map item_of rest)
      unfolding follow next_cursor
      follow_from zero done rest raw after whole sel read enough = absurd (omega arith)
      follow_from (suc f) done rest raw after whole sel read enough =
          elim (Bool-cases (length (take (parse_limit q.limit) rest) == parse_limit q.limit)) [
            | inr short ↦
                rw (page raw after read, sel, short, take_short (parse_limit q.limit) rest short)
                  refl
            | inl full ↦
                let p = full_page (parse_limit q.limit) rest (parse_limit_pos q.limit) full in
                let z = p.last in
                let split : all_rows ≡ (done ++ p.pre) ++ z ∷ p.post =
                  whole
                  ∙ ap (λ r. done ++ r) p.whole
                  ∙ sym (append_assoc done p.pre (z ∷ p.post)) in
                let fz : Fits z =
                  All-at newer Fits (done ++ p.pre) z p.post
                    (subst (All Fits) split all_rows-Fits) in
                let c = cursor_of-ReadBack GlobalListResponse refusal_after z w fz in
                let step : follow parse_time q (suc f) raw w
                    ≡ prepend (map item_of (p.pre ++ z ∷ []))
                        (follow parse_time q f (cursor_of z) w) =
                  rw (page raw after read, sel, full, p.page, last?-append p.pre z, c.shown) refl in
                let ih =
                  follow_from f (done ++ p.pre ++ z ∷ []) p.post (cursor_of z)
                    (some (pos z.entry.published_at, pos z.entry.id))
                    (split ∙ sym (append_assoc (done ++ p.pre) (z ∷ []) p.post))
                    (behind (done ++ p.pre) p.post z split) c.reads
                    (omega (arith, enough, ap length p.whole, length-append p.pre (z ∷ p.post))) in
                step
                ∙ rw ih (
                    ap some (
                      sym (map-append item_of (p.pre ++ z ∷ []) p.post)
                      ∙ ap (map item_of) (append_assoc p.pre (z ∷ []) p.post ∙ sym p.whole)))
          ]

      -- With nobody else active, entries of different ids, and ids and times of publication that an
      -- int64 holds: a reader that starts without a cursor and asks for the next page as long as an
      -- answer has a cursor gets, with one request more than there are entries as the limit, all that
      -- the query asks for, each once and the latest first, whatever the page limit is.
      pub follow-all_rows :
          (f : ℕ) → length all_rows < f → follow parse_time q f [] w ≡ some (map item_of all_rows)
      unfolding is_after
      follow-all_rows f enough =
          follow_from f [] all_rows [] none refl
            (select_where-eq_self newer (is_after none) all_rows (all_true all_rows)) refl enough
        where
          all_true : (rows : List EntryWithAgent) → All (λ r. is_after none r ≡ true) rows
          all_true [] = tt
          all_true (r ∷ rows) = (refl, all_true rows)
