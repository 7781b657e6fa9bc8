-- ===== src/Entries/Submitted.antt =====
-- What an answer of Post tells, with other requests and failures at any moment.
use diarion_core.Prelude.{
  ℕ, zero, suc, ◌+◌, ◌≤◌, ◌<◌, ◌≡◌, refl, true, false, not, some, arith, Bytes, bytes_eq,
  bytes_eq→eq, String, Bool-cases, inl, inr,
}
use diarion_core.Prelude.Result.{Result, ok, err}
use diarion_core.Stdlib.Strings.{trim_space}
use diarion_core.Db.Models.{Agent, Entry}
use diarion_core.Db.Entries.{InsertEntryParams, insert_entry, get_latest_entry_hash_for_agent}
use diarion_core.Db.Entries.Inserted.{Inserted, insert_entry-Inserted}
use diarion_core.Db.World.{
  World, DbError, no_rows, fk_violation, check_violation, connection, unique_violation, Reply,
  http_error, no_body, json, Flow, go, stop, Handler, call, seen,
}
use diarion_core.Db.World.Ran.{Runs, Ran, call-Runs, call-Ran}
use diarion_core.Db.Outcome.{
  Outcome, Outcome-map, bind_step, require_step, call_step, guard_step, Outcome-serve,
}
use diarion_core.Slug.{slugify, with_suffix}
use diarion_core.Signing.Verifier.{VerifyResult}
use diarion_core.Entries.{PostRequest, Handlers, slug_retry_limit, zeros32, Call, is_slug_conflict}
use diarion_core.Entries.Post.{
  PostResponse, is_empty, check_head, params_of, retry_or_return, insert_from, response_of,
  authorize, submit, post_steps, post,
}
use diarion_core.Entries.Accepted.{IsRefusal, Refuses, Authorized, authorize-Authorized}

-- How the previous hash of a request relates to what the query for the chain head gave.
pub data FollowsHead (prev : Bytes) : Result DbError Bytes → Type 0 where
  follows : (latest : Bytes) → prev ≡ latest → FollowsHead prev (ok latest)
  starts : prev ≡ zeros32 → FollowsHead prev (err no_rows)

pub check_head-FollowsHead :
    (prev : Bytes) (r : Result DbError Bytes) (w : World)
    → Outcome (λ _ w'. FollowsHead prev r × (w' ≡ w)) (Refuses PostResponse) (check_head prev r w)
unfolding check_head
check_head-FollowsHead prev (ok latest) w = elim (Bool-cases (bytes_eq prev latest)) [
  | inl e ↦ rw e (follows latest (bytes_eq→eq prev latest e), refl)
  | inr e ↦ rw e (omega arith)
]
check_head-FollowsHead prev (err no_rows) w = elim (Bool-cases (bytes_eq prev zeros32)) [
  | inl e ↦ rw e (starts (bytes_eq→eq prev zeros32 e), refl)
  | inr e ↦ rw e (omega arith)
]
check_head-FollowsHead prev (err fk_violation) w = omega arith
check_head-FollowsHead prev (err check_violation) w = omega arith
check_head-FollowsHead prev (err connection) w = omega arith
check_head-FollowsHead prev (err (unique_violation c)) w = omega arith

-- The attempts from `n` up to `m`, each a statement that failed on a taken slug.
pub data Retried (params : Bytes → InsertEntryParams) (base : Bytes)
    : ℕ → ℕ → World → World → Type 0 where
  no_more : {n : ℕ} {w : World} → Retried params base n n w w
  retry :
      {n m : ℕ} {w w1 w2 : World} (e : DbError)
      → Runs (insert_entry (params (with_suffix base n))) w (err e) w1
      → is_slug_conflict e ≡ true
      → Retried params base (suc n) m w1 w2
      → Retried params base n m w w2

-- The attempt that the loop stopped at, and what it inserted.
pub record InsertedBy (params : Bytes → InsertEntryParams) (base : Bytes) (from to : ℕ) (w : World)
    (row : Entry) (w' : World) : Type 0 where
  pub attempt : ℕ
  pub below : attempt < to
  pub last : World
  pub retried : Retried params base from attempt w last
  pub ran : Ran (insert_entry (params (with_suffix base attempt))) last row w'
  pub inserted : Inserted (params (with_suffix base attempt)) w'.now (seen last) row w'.db

later_attempt :
    (params : Bytes → InsertEntryParams) (base : Bytes) (n k : ℕ) (w w1 : World) (row : Entry)
    (w' : World) (e : DbError)
    → Runs (insert_entry (params (with_suffix base n))) w (err e) w1
    → is_slug_conflict e ≡ true
    → InsertedBy params base (suc n) (suc n + k) w1 row w'
    → InsertedBy params base n (n + suc k) w row w'
later_attempt params base n k w w1 row w' e h c i = record {
  attempt = i.attempt;
  below = omega (arith, i.below);
  last = i.last;
  retried = retry e h c i.retried;
  ran = i.ran;
  inserted = i.inserted;
}

retry_or_return-InsertedBy :
    (params : Bytes → InsertEntryParams) (base : Bytes) (k n : ℕ)
    (again : Handler (Reply PostResponse) Entry) (r : Result DbError Entry) (w w' : World)
    → ((w : World)
        → Outcome (InsertedBy params base (suc n) (suc n + k) w) (Refuses PostResponse) (again w))
    → call {X = Reply PostResponse} (insert_entry (params (with_suffix base n))) w ≡ (go r, w')
    → Outcome
        (InsertedBy params base n (n + suc k) w)
        (Refuses PostResponse)
        (retry_or_return again r w')
retry_or_return-InsertedBy params base k n again (ok row) w w' rest h =
    let ran = call-Ran {X = Reply PostResponse} (insert_entry (params (with_suffix base n))) w h in
    record {
      attempt = n;
      below = omega arith;
      last = w;
      retried = no_more;
      ran = ran;
      inserted = insert_entry-Inserted _ w'.now (seen w) row w'.db ran.ran;
    }
retry_or_return-InsertedBy params base k n again (err e) w w' rest h =
    elim (Bool-cases (is_slug_conflict e)) [
      | inl c ↦ rw c (
          Outcome-map _ _ _ (again w')
            (λ row w2 i.
              later_attempt params base n k w w' row w2 e
                (call-Runs {X = Reply PostResponse} (insert_entry (params (with_suffix base n))) w
                  h)
                c i)
            (rest w'))
      | inr c ↦ rw c (omega arith)
    ]

insert_from-InsertedBy :
    (params : Bytes → InsertEntryParams) (base : Bytes) (k n : ℕ) (w : World)
    → Outcome
        (InsertedBy params base n (n + k) w)
        (Refuses PostResponse)
        (insert_from params base k n w)
unfolding insert_from
insert_from-InsertedBy params base zero n w = omega arith
insert_from-InsertedBy params base (suc k) n w =
    call_step _ (Refuses PostResponse) (insert_entry (params (with_suffix base n))) _ w (λ r w'.
      retry_or_return-InsertedBy params base k n (insert_from params base k (suc n)) r w w'
        (insert_from-InsertedBy params base k (suc n)))

-- What the submission of an entry has checked and done.
pub record Submitted (h : Handlers) (agent : Agent) (res : VerifyResult) (body : Bytes) (w : World)
    (row : Entry) (w' : World) : Type 0 where
  pub req : PostRequest
  pub parsed : h.unmarshal body ≡ some req
  pub has_title : is_empty (trim_space req.title) ≡ false
  pub has_body : is_empty req.body_markdown ≡ false
  pub after_head : World
  pub head : Result DbError Bytes
  pub read_head : Runs (get_latest_entry_hash_for_agent agent.id) w head after_head
  pub on_head : FollowsHead res.prev_entry_hash head
  pub html : Bytes
  pub rendered : h.render req.body_markdown ≡ some html
  pub stored :
      InsertedBy
        (params_of agent res req (trim_space req.title) html)
        (slugify h.unicode (trim_space req.title))
        1
        (1 + slug_retry_limit)
        after_head
        row
        w'

submit-Submitted :
    (h : Handlers) (agent : Agent) (res : VerifyResult) (body : Bytes) (w : World)
    → Outcome (Submitted h agent res body w) (Refuses PostResponse) (submit h agent res body w)
unfolding submit
submit-Submitted h agent res body w =
    let S = Refuses PostResponse in
    require_step _ S (h.unmarshal body) (http_error 400 "invalid JSON body") _ w (omega arith)
      (λ req parsed.
        guard_step _ S (not (is_empty (trim_space req.title))) (http_error 400 "title is required")
          _ w (omega arith)
          (λ titled.
            guard_step _ S (not (is_empty req.body_markdown))
              (http_error 400 "body_markdown is required") _ w (omega arith)
              (λ has_body.
                call_step _ S (get_latest_entry_hash_for_agent agent.id) _ w (λ head w1 at_head.
                  bind_step _ S _ (check_head res.prev_entry_hash head) _ w1
                    (check_head-FollowsHead res.prev_entry_hash head w1)
                    (λ _ w2 checked.
                      require_step _ S (h.render req.body_markdown)
                        (http_error 500 "internal error") _ w2 (omega arith)
                        (λ html rendered.
                          Outcome-map _ _ S
                            (insert_from (params_of agent res req (trim_space req.title) html)
                              (slugify h.unicode (trim_space req.title)) slug_retry_limit 1 w2)
                            (λ row w3 stored. record {
                              req = req;
                              parsed = parsed;
                              has_title = ground (arith, titled);
                              has_body = ground (arith, has_body);
                              after_head = w1;
                              head = head;
                              read_head =
                                  call-Runs {X = Reply PostResponse}
                                    (get_latest_entry_hash_for_agent agent.id) w at_head;
                              on_head = checked.0;
                              html = html;
                              rendered = rendered;
                              stored = rw checked.1 at stored;
                            })
                            (insert_from-InsertedBy _ _ slug_retry_limit 1 w2)))))))

-- An answer of Post in the world that it leaves.
pub data Posted (h : Handlers) (c : Call) (w : World) : Reply PostResponse → World → Type 0 where
  refused :
      {code : ℕ} {text : String} {w' : World} → 400 ≤ code → Posted h c w (http_error code text) w'
  published :
      {w' : World} (agent : Agent) (res : VerifyResult) (body : Bytes) (row : Entry) (read : World)
      → Authorized PostResponse h c w agent res body read
      → Submitted h agent res body read row w'
      → Posted h c w (json 201 (response_of agent row)) w'

Posted-IsRefusal :
    {h : Handlers} {c : Call} {w : World} (x : Reply PostResponse) (w' : World)
    → IsRefusal x
    → Posted h c w x w'
Posted-IsRefusal (http_error code text) w' r = refused r
Posted-IsRefusal (no_body code) w' r = elim r [ ]
Posted-IsRefusal (json code p) w' r = elim r [ ]

-- Whatever other requests, delays and failures of the database come in between, Post answers either
-- with an error status or with 201. With 201 its steps were, each starting where the one before it
-- ended: Verify accepted the request with a key of the agent that the next statement found for the
-- path, which is not suspended; the query for the chain head gave the previous hash that Verify
-- returned, or nothing where that is zeros; and among the first sixteen slugs of the title one was
-- free in the tables that its insertion saw, after the insertions for those before it had failed on
-- a taken slug. The tables left have that row behind the entries seen, with the signature and the
-- digest that Verify returned, and the response shows its columns.
pub post-Posted :
    (h : Handlers) (c : Call) (w : World) (reply : Reply PostResponse) (w' : World)
    → post h c w ≡ (reply, w')
    → Posted h c w reply w'
unfolding post
post-Posted h c w reply w' e =
    Outcome-serve (Posted h c w) (post_steps h c w)
      (bind_step _ (Posted h c w) _ (authorize h c) _ w
        (refusal_step _ (authorize h c w) (authorize-Authorized PostResponse h c w))
        (λ r w1 a.
          bind_step _ (Posted h c w) _ (submit h r.0 r.1 r.2) _ w1
            (refusal_step _ (submit h r.0 r.1 r.2 w1) (submit-Submitted h r.0 r.1 r.2 w1))
            (λ row w2 s. published r.0 r.1 r.2 row w1 a s)))
      e
  where
    refusal_step :
        {A : Type 0} (Q : A → World → Type 0) (m : Flow (Reply PostResponse) A × World)
        → Outcome Q (Refuses PostResponse) m
        → Outcome Q (Posted h c w) m
    refusal_step Q (go a, w') o = o
    refusal_step Q (stop x, w') o = Posted-IsRefusal x w' o
