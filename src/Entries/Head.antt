-- ===== src/Entries/Head.antt =====
-- A published entry is the head of its agent's chain.
use diarion_core.Prelude.{
  ◌<◌, ◌≡◌, refl, ap, subst, ◌∙◌, Bool, true, ◌&&◌, some, List, [], ◌∷◌, ◌++◌, arith, ◌==◌, ==_refl,
  head?, last?, All, Bytes, Bool-cases, inl, inr,
}
use diarion_core.Prelude.Result.{ok}
use diarion_core.Db.Models.{Db, Time, Entry}
use diarion_core.Db.Table.{select_where, order_by, insert_by}
use diarion_core.Db.World.{World, json, seen}
use diarion_core.Db.Entries.{
  InsertEntryParams, entry_of, is_live, newer_entry, entries_of, get_latest_entry_hash_for_agent,
}
use diarion_core.Db.Entries.Inserted.{Inserted}
use diarion_core.Signing.Fetcher.{db_fetch}
use diarion_core.Signing.Checks.{verify-Signed}
use diarion_core.Entries.{Handlers, Call}
use diarion_core.Entries.Post.{PostResponse, post}
use diarion_core.Entries.Submitted.{Posted, published, post-Posted}

-- Every row is older than the time.
abbrev pub AllBefore : Time → List Entry → Type 0
AllBefore now = All (λ e. e.published_at < now)

insert_by-head :
    (r x : Entry) (ys : List Entry)
    → x.published_at < r.published_at
    → head? ys ≡ some r
    → head? (insert_by newer_entry x ys) ≡ some r
unfolding insert_by
insert_by-head r x [] l h = cc
insert_by-head r x (y ∷ ys) l h = ground arith

-- The newest row comes first, wherever the others stand.
order_by-newest :
    (p : Entry → Bool) (xs : List Entry) (r : Entry)
    → AllBefore r.published_at xs
    → p r ≡ true
    → head? (order_by newer_entry (select_where p (xs ++ r ∷ []))) ≡ some r
unfolding select_where order_by insert_by
order_by-newest p [] r a h = rw h refl
order_by-newest p (x ∷ xs) r (ax, a) h = elim (Bool-cases (p x)) [
  | inl e ↦ rw e (insert_by-head r x _ ax (order_by-newest p xs r a h))
  | inr e ↦ rw e (order_by-newest p xs r a h)
]

Inserted-head :
    (arg : InsertEntryParams) (now later : Time) (db : Db) (row : Entry) (db' : Db)
    → Inserted arg now db row db'
    → AllBefore now db.entries
    → get_latest_entry_hash_for_agent arg.agent_id later db' ≡ (ok arg.content_hash, db')
unfolding get_latest_entry_hash_for_agent entries_of
Inserted-head arg now later db row db' i a =
    let newest : head? (
          order_by newer_entry (
            select_where (λ e. e.agent_id == arg.agent_id && is_live e)
              (db.entries ++ entry_of db.next_entry now arg ∷ [])))
        ≡ some (entry_of db.next_entry now arg) =
      order_by-newest (λ e. e.agent_id == arg.agent_id && is_live e) db.entries _ a
        (rw (==_refl arg.agent_id) refl) in
    rw (i.appended, i.row_is, newest) refl

-- All rows but the last.
unfoldable pub init : List Entry → List Entry
init [] = []
init (x ∷ []) = []
init (x ∷ y ∷ xs) = x ∷ init (y ∷ xs)

init-append : (xs : List Entry) (r : Entry) → init (xs ++ r ∷ []) ≡ xs
unfolding init
init-append [] r = refl
init-append (x ∷ []) r = refl
init-append (x ∷ y ∷ xs) r = ap (◌∷◌ x) (init-append (y ∷ xs) r)

last?-append : (xs : List Entry) (r : Entry) → last? (xs ++ r ∷ []) ≡ some r
last?-append [] r = refl
last?-append (x ∷ []) r = refl
last?-append (x ∷ y ∷ xs) r = last?-append (y ∷ xs) r

-- The head of the chain of the last row's agent is the hash of the body.
pub record IsHead (h : Handlers) (body : Bytes) (later : Time) (db : Db) : Type 0 where
  pub row : Entry
  pub last_row : last? db.entries ≡ some row
  pub head_is :
      get_latest_entry_hash_for_agent row.agent_id later db ≡ (ok (h.crypto.sha256 body), db)

Posted-IsHead :
    (h : Handlers) (c : Call) (w : World) (resp : PostResponse) (w' : World) (body : Bytes)
    (later : Time)
    → Posted h c w (json 201 resp) w'
    → c.body ≡ some body
    → AllBefore w'.now (init w'.db.entries)
    → IsHead h body later w'.db
Posted-IsHead h c w resp w' body later (published agent res b row read a s) hb old =
    let i = s.stored.inserted in
    let entries : List Entry = (seen s.stored.last).entries in
    let (keyid, rec, _, signed) =
      verify-Signed h.sfv h.crypto db_fetch w.now c.request b w a.after_verify res a.verified in
    let same_body : b ≡ body = cc (a.has_body, hb) in
    let digest : res.content_digest ≡ h.crypto.sha256 body =
      rw (← same_body) signed.digest_of_body in
    let before : AllBefore w'.now entries =
      subst (AllBefore w'.now) (ap init i.appended ∙ init-append entries row) old in
    let own : row.agent_id ≡ agent.id = ap (λ e. e.agent_id) i.row_is in
    record {
      row = row;
      last_row = rw i.appended (last?-append entries row);
      head_is =
          rw (own, ← digest) (Inserted-head _ w'.now later (seen s.stored.last) row w'.db i before);
    }

-- When Post answers with 201 and the clock of the insertion is ahead of all rows before it, the
-- query for the chain head of the entry's agent then gives the SHA-256 hash of the posted body.
pub post-IsHead :
    (h : Handlers) (c : Call) (w : World) (resp : PostResponse) (w' : World) (body : Bytes)
    (later : Time)
    → post h c w ≡ (json 201 resp, w')
    → c.body ≡ some body
    → AllBefore w'.now (init w'.db.entries)
    → IsHead h body later w'.db
post-IsHead h c w resp w' body later e hb old =
    Posted-IsHead h c w resp w' body later (post-Posted h c w (json 201 resp) w' e) hb old
