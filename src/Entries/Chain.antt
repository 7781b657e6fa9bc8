-- ===== src/Entries/Chain.antt =====
-- The chain of an agent's entries, and what Post makes of it with nobody else active.
use diarion_core.Prelude.{
  ℕ, ◌<◌, ◌≡◌, refl, sym, ap, ◌∙◌, Bool, true, false, not, ◌&&◌, Option, none, some, List, [], ◌∷◌,
  ◌++◌, arith, ◌==◌, head?, Bytes, bytes_eq, Bool-cases, inl, inr,
}
use diarion_core.Prelude.Result.{Result, ok, err, or_err}
use diarion_core.Stdlib.Strings.{trim_space}
use diarion_core.Db.Models.{Db, Agent, Entry}
use diarion_core.Db.Table.{select_where, order_by, insert_by}
use diarion_core.Db.World.{
  World, DbError, no_rows, fk_violation, check_violation, connection, unique_violation, Reply,
  http_error, Flow, go, stop, call-alone,
}
use diarion_core.Db.Outcome.{
  Outcome, Outcome-map, bind_step, require_step, call_step, guard_step, Outcome-serve,
}
use diarion_core.Db.Entries.{
  is_live, newer_entry, entries_of, content_hash_of, get_latest_entry_hash_for_agent,
}
use diarion_core.Slug.{slugify}
use diarion_core.Signing.Verifier.{VerifyResult}
use diarion_core.Entries.Accepted.{Refuses}
use diarion_core.Entries.{PostRequest, Handlers, slug_retry_limit, zeros32, Call}
use diarion_core.Entries.Post.{
  PostResponse, is_empty, prev_for_db, check_head, params_of, insert_from, authorize, submit,
  post_steps, post,
}
use diarion_core.Entries.Submitted.{FollowsHead, follows, starts, check_head-FollowsHead}
use diarion_core.Entries.Head.{AllBefore}
use diarion_core.Entries.Alone.{
  Still, Left, call-Still, authorize-Still, Appended, insert_from-Appended,
}

-- The predecessor that an entry behind this one names.
abbrev pub link : Option Entry → Option Bytes
link none = none
link (some e) = prev_for_db e.content_hash

-- Entries, the latest first, each of which names the next one, and the last none.
abbrev pub IsChain : List Entry → Type 0
IsChain [] = Unit {0}
IsChain (e ∷ es) = (e.prev_entry_hash ≡ link (head? es)) × IsChain es

-- The live entries of every agent form a chain.
abbrev pub Chained : Db → Type 0
Chained db = (agent : ℕ) → IsChain (entries_of agent db.entries)

insert_by-newest :
    (r x : Entry) (ys : List Entry)
    → x.published_at < r.published_at
    → insert_by newer_entry x (r ∷ ys) ≡ r ∷ insert_by newer_entry x ys
unfolding insert_by
insert_by-newest r x ys l = ground arith

-- The newest row goes in front of the others.
order_by-newest :
    (p : Entry → Bool) (xs : List Entry) (r : Entry)
    → AllBefore r.published_at xs
    → p r ≡ true
    → order_by newer_entry (select_where p (xs ++ r ∷ []))
      ≡ r ∷ order_by newer_entry (select_where p xs)
unfolding select_where order_by insert_by
order_by-newest p [] r a h = rw h refl
order_by-newest p (x ∷ xs) r (ax, a) h = elim (Bool-cases (p x)) [
  | inl e ↦ rw (e, order_by-newest p xs r a h) (insert_by-newest r x _ ax)
  | inr e ↦ rw e (order_by-newest p xs r a h)
]

select_where-append_not :
    (p : Entry → Bool) (xs : List Entry) (r : Entry)
    → p r ≡ false
    → select_where p (xs ++ r ∷ []) ≡ select_where p xs
unfolding select_where
select_where-append_not p [] r h = rw h refl
select_where-append_not p (x ∷ xs) r h = elim (Bool-cases (p x)) [
  | inl e ↦ rw e (ap (◌∷◌ x) (select_where-append_not p xs r h))
  | inr e ↦ rw e (select_where-append_not p xs r h)
]

-- A row behind all entries that names the head of its agent's chain.
pub record Linked (w : World) (row : Entry) (w' : World) : Type 0 where
  pub appended : w'.db.entries ≡ w.db.entries ++ row ∷ []
  pub names_head : row.prev_entry_hash ≡ link (head? (entries_of row.agent_id w.db.entries))
  pub live : is_live row ≡ true
  pub now_published : row.published_at ≡ w.now

Linked-Chained :
    (w : World) (row : Entry) (w' : World)
    → Linked w row w'
    → AllBefore w.now w.db.entries
    → Chained w.db
    → Chained w'.db
unfolding entries_of
Linked-Chained w row w' l old chained agent =
    let p : Entry → Bool = λ e. e.agent_id == agent && is_live e in
    elim (Bool-cases (p row)) [
      | inl e ↦
          let own : row.agent_id ≡ agent = ground (arith, e) in
          rw (l.appended, order_by-newest p w.db.entries row (rw l.now_published old) e, ← own)
            (l.names_head, chained row.agent_id)
      | inr e ↦ rw (l.appended, select_where-append_not p w.db.entries row e) (chained agent)
    ]

FollowsHead-link :
    (prev : Bytes) (o : Option Entry) (r : Result DbError Bytes)
    → r ≡ or_err (content_hash_of o) no_rows
    → FollowsHead prev r
    → prev_for_db prev ≡ link o
unfolding bytes_eq
FollowsHead-link prev (some e) (ok found) q (follows latest f) =
    let same : found ≡ e.content_hash = cc in ap prev_for_db (f ∙ same)
FollowsHead-link prev none (ok found) q (follows latest f) = cc
FollowsHead-link prev (some e) (err no_rows) q (starts f) = cc
FollowsHead-link prev none (err no_rows) q (starts f) = rw f refl
FollowsHead-link prev o (err fk_violation) q f = elim f [ ]
FollowsHead-link prev o (err check_violation) q f = elim f [ ]
FollowsHead-link prev o (err connection) q f = elim f [ ]
FollowsHead-link prev o (err (unique_violation c)) q f = elim f [ ]

both :
    {X A : Type 0} (Q R : A → World → Type 0) (S T : X → World → Type 0) (m : Flow X A × World)
    → Outcome Q S m
    → Outcome R T m
    → Outcome (λ a w. Q a w × R a w) T m
both Q R S T (go a, w) q r = (q, r)
both Q R S T (stop x, w) q r = r

check_head-Still :
    (prev : Bytes) (r : Result DbError Bytes) (w w1 : World)
    → Still w w1
    → Outcome (λ _ w2. Still w w2) (Left w) (check_head prev r w1)
unfolding check_head
check_head-Still prev (ok latest) w w1 s = elim (Bool-cases (bytes_eq prev latest)) [
  | inl e ↦ rw e s
  | inr e ↦ rw e s
]
check_head-Still prev (err no_rows) w w1 s = elim (Bool-cases (bytes_eq prev zeros32)) [
  | inl e ↦ rw e s
  | inr e ↦ rw e s
]
check_head-Still prev (err fk_violation) w w1 s = s
check_head-Still prev (err check_violation) w w1 s = s
check_head-Still prev (err connection) w w1 s = s
check_head-Still prev (err (unique_violation c)) w w1 s = s

Appended-Linked :
    (agent : Agent) (res : VerifyResult) (req : PostRequest) (title html : Bytes) (w : World)
    (row : Entry) (w' : World)
    → prev_for_db res.prev_entry_hash ≡ link (head? (entries_of agent.id w.db.entries))
    → Appended (params_of agent res req title html) w row w'
    → Linked w row w'
Appended-Linked agent res req title html w row w' h a =
    let is = a.inserted.row_is in
    let own : row.agent_id ≡ agent.id = ap (λ e. e.agent_id) is in
    record {
      appended = a.inserted.appended ∙ ap (λ es. es ++ row ∷ []) a.entries_same;
      names_head = rw own (ap (λ e. e.prev_entry_hash) is ∙ h);
      live = ap is_live is;
      now_published = ap (λ e. e.published_at) is;
    }

submit-Linked :
    (h : Handlers) (agent : Agent) (res : VerifyResult) (body : Bytes) (w w1 : World)
    → Still w w1
    → Outcome (Linked w) (Left w) (submit h agent res body w1)
unfolding submit get_latest_entry_hash_for_agent
submit-Linked h agent res body w w1 s =
    let q = get_latest_entry_hash_for_agent agent.id in
    require_step _ (Left w) (h.unmarshal body) (http_error 400 "invalid JSON body") _ w1 s (λ req _.
      guard_step _ (Left w) (not (is_empty (trim_space req.title)))
        (http_error 400 "title is required") _ w1 s
        (λ _.
          guard_step _ (Left w) (not (is_empty req.body_markdown))
            (http_error 400 "body_markdown is required") _ w1 s
            (λ _. call_step _ (Left w) q _ w1 (λ head w2 at_head.
              let s2 = call-Still (Reply PostResponse) w q w1 (λ now db. refl) s at_head in
              let (ran, _, _) = call-alone {X = Reply PostResponse} q w1 s.alone at_head in
              bind_step _ (Left w)
                (λ _ w3. (FollowsHead res.prev_entry_hash head × (w3 ≡ w2)) × Still w w3)
                (check_head res.prev_entry_hash head) _ w2
                (both _ _ (Refuses PostResponse) (Left w) (check_head res.prev_entry_hash head w2)
                  (check_head-FollowsHead res.prev_entry_hash head w2)
                  (check_head-Still res.prev_entry_hash head w w2 s2))
                (λ _ w3 f.
                  require_step _ (Left w) (h.render req.body_markdown)
                    (http_error 500 "internal error") _ w3 f.1
                    (λ html _.
                      Outcome-map _ _ (Left w)
                        (insert_from (params_of agent res req (trim_space req.title) html)
                          (slugify h.unicode (trim_space req.title)) slug_retry_limit 1 w3)
                        (λ row w4 i.
                          Appended-Linked agent res req (trim_space req.title) html w row w4
                            (FollowsHead-link res.prev_entry_hash
                              (head? (entries_of agent.id w.db.entries)) head
                              (sym (ap (λ p. p.0) (rw s.entries_same at ran))) f.0.0)
                            i)
                        (insert_from-Appended _ _ slug_retry_limit 1 w w3 f.1)))))))

-- An answer of Post and the entries that it leaves.
pub data Kept (w : World) : Reply PostResponse → World → Type 0 where
  unchanged : {x : Reply PostResponse} {w' : World} → w'.db.entries ≡ w.db.entries → Kept w x w'
  extended : {x : Reply PostResponse} {w' : World} (row : Entry) → Linked w row w' → Kept w x w'

post_steps-Kept :
    (h : Handlers) (c : Call) (w : World)
    → w.schedule ≡ []
    → Outcome (Kept w) (Kept w) (post_steps h c w)
post_steps-Kept h c w alone =
    bind_step _ (Kept w) _ (authorize h c) _ w
      (early _ (authorize h c w) (authorize-Still PostResponse h c w alone))
      (λ r w1 s.
        bind_step _ (Kept w) _ (submit h r.0 r.1 r.2) _ w1
          (early _ (submit h r.0 r.1 r.2 w1) (submit-Linked h r.0 r.1 r.2 w w1 s))
          (λ row w2 l. extended row l))
  where
    early :
        {A : Type 0} (Q : A → World → Type 0) (m : Flow (Reply PostResponse) A × World)
        → Outcome Q (Left w) m
        → Outcome Q (Kept w) m
    early Q (go a, w') o = o
    early Q (stop x, w') o = unchanged o.entries_same

Kept-Chained :
    (w : World) (x : Reply PostResponse) (w' : World)
    → Kept w x w'
    → AllBefore w.now w.db.entries
    → Chained w.db
    → Chained w'.db
Kept-Chained w x w' (unchanged same) old chained agent = rw same (chained agent)
Kept-Chained w x w' (extended row l) old chained agent = Linked-Chained w row w' l old chained agent

-- Where the live entries of every agent form a chain, each naming the hash of the one before it and
-- the first none, they still do after a Post, whatever it answers, if no other request is active
-- and the clock is ahead of all entries.
pub post-Chained :
    (h : Handlers) (c : Call) (w : World) (reply : Reply PostResponse) (w' : World)
    → w.schedule ≡ []
    → AllBefore w.now w.db.entries
    → Chained w.db
    → post h c w ≡ (reply, w')
    → Chained w'.db
unfolding post
post-Chained h c w reply w' alone old chained e =
    Kept-Chained w reply w'
      (Outcome-serve (Kept w) (post_steps h c w) (post_steps-Kept h c w alone) e) old chained
