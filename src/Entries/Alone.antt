-- ===== src/Entries/Alone.antt =====
-- Post with nobody else active: what each of its parts leaves of the entries.
use diarion_core.Prelude.{
  ℕ, zero, suc, ◌≡◌, refl, sym, ap, ◌∙◌, not, [], leb, ◌==◌, length, Bytes, Bool-cases, inl, inr,
}
use diarion_core.Prelude.Result.{Result, ok, err}
use diarion_core.Db.Models.{Db, Time, Entry}
use diarion_core.Db.Agents.{is_some, get_agent_by_handle}
use diarion_core.Db.Keys.{get_agent_key_by_fingerprint}
use diarion_core.Db.Entries.{InsertEntryParams, insert_entry}
use diarion_core.Db.Entries.Inserted.{Inserted, insert_entry-Inserted, insert_entry-left}
use diarion_core.Db.World.{World, Query, DbError, Reply, Handler, http_error, go, call, call-alone}
use diarion_core.Db.Outcome.{
  Outcome, bind_step, require_step, or_return_step, call_step, guard_step,
}
use diarion_core.Slug.{with_suffix}
use diarion_core.Signing.Verifier.{VerifyError, VerifyResult, Prechecked, precheck}
use diarion_core.Signing.Fetcher.{db_fetch, fetch_and_check, verify}
use diarion_core.Entries.{
  Handlers, max_body_bytes, Call, verify_call, missing_or_internal, is_slug_conflict,
}
use diarion_core.Entries.Post.{
  PostResponse, is_empty, or_unauthorized, authorize, retry_or_return, insert_from,
}

-- Still nobody else is active, no time has passed, and the entries are those of `w`.
pub record Still (w w' : World) : Type 0 where
  pub alone : w'.schedule ≡ []
  pub entries_same : w'.db.entries ≡ w.db.entries
  pub same_time : w'.now ≡ w.now

-- An early return leaves the entries as they are.
abbrev pub Left : {X : Type 0} → World → X → World → Type 0
Left w x w' = Still w w'

abbrev KeepsEntries : {A : Type 0} → Query A → Type 0
KeepsEntries q = (now : Time) (db : Db) → (q now db).1.entries ≡ db.entries

module _ (X : Type 0) (w : World) where
  pub call-Still :
      {A : Type 0} (q : Query A) (w1 : World) {r : Result DbError A} {w2 : World}
      → KeepsEntries q
      → Still w w1
      → call {X = X} q w1 ≡ (go r, w2)
      → Still w w2
  call-Still q w1 k s h =
      let (ran, t, alone) = call-alone {X = X} q w1 s.alone h in
      record {
        alone = alone ∙ s.alone;
        entries_same = sym (ap (λ p. p.1.entries) ran) ∙ k w1.now w1.db ∙ s.entries_same;
        same_time = t ∙ s.same_time;
      }

  fetch_and_check-Still :
      (h : Handlers) (c : Call) (m : Result VerifyError Prechecked) (w1 : World)
      → Still w w1
      → Outcome
          (λ r w2. Still w w2)
          (Left w)
          (fetch_and_check {X = X} db_fetch h.sfv h.crypto c.request m w1)
  unfolding get_agent_key_by_fingerprint
  fetch_and_check-Still h c (err e) w1 s = s
  fetch_and_check-Still h c (ok pre) w1 s =
      bind_step _ (Left w) (λ r w2. Still w w2) (db_fetch {X = X} pre.input.keyid) _ w1
        (call_step (λ r w2. Still w w2) (Left w) (get_agent_key_by_fingerprint pre.input.keyid) _ w1
          (λ r w2 e.
            call-Still (get_agent_key_by_fingerprint pre.input.keyid) w1 (λ now db. refl) s e))
        (λ r w2 s2. s2)

  or_unauthorized-Still :
      (R : Type 0) (r : Result VerifyError VerifyResult) (w1 : World)
      → Still w w1
      → Outcome (λ res w2. Still w w2) (Left w) (or_unauthorized {X = R} r w1)
  or_unauthorized-Still R (ok res) w1 s = s
  or_unauthorized-Still R (err e) w1 s = s

pub authorize-Still :
    (R : Type 0) (h : Handlers) (c : Call) (w : World)
    → w.schedule ≡ []
    → Outcome (λ r w1. Still w w1) (Left w) (authorize {X = R} h c w)
unfolding authorize verify get_agent_by_handle
authorize-Still R h c w alone =
    let X = Reply R in
    let start : Still w w = record { alone = alone; entries_same = refl; same_time = refl } in
    let K = λ (w1 : World). Still w w1 in
    guard_step _ (Left w) (not (is_empty c.handle)) (http_error 400 "missing handle") _ w start
      (λ _. require_step _ (Left w) c.body (http_error 400 "read body") _ w start (λ body _.
        guard_step _ (Left w) (leb (length body) max_body_bytes)
          (http_error 413 "request body too large") _ w start
          (λ _.
            bind_step _ (Left w) (λ r w1. K w1) (verify_call h c body) _ w
              (fetch_and_check-Still X w h c (precheck h.sfv h.crypto w.now c.request body) w start)
              (λ verified w1 s1.
                bind_step _ (Left w) (λ r w2. K w2) (or_unauthorized verified) _ w1
                  (or_unauthorized-Still X w R verified w1 s1)
                  (λ res w2 s2.
                    call_step _ (Left w) (get_agent_by_handle c.handle) _ w2 (λ found w3 at_agent.
                      let s3 =
                        call-Still X w (get_agent_by_handle c.handle) w2 (λ now db. refl) s2
                          at_agent in
                      or_return_step _ (Left w)
                        (missing_or_internal (http_error 404 "agent not found")) found _ w3
                        (λ e. s3)
                        (λ agent _.
                          guard_step _ (Left w) (agent.id == res.agent_id)
                            (http_error 403 "key does not belong to this agent") _ w3 s3
                            (λ _.
                              guard_step _ (Left w) (not (is_some agent.suspended_at))
                                (http_error 403 "agent suspended") _ w3 s3 (λ _. s3)))))))))

-- A row of the parameters of one of the attempts, behind the entries of before.
pub record Appended (params : Bytes → InsertEntryParams) (w : World) (row : Entry) (w' : World)
    : Type 0 where
  pub slug : Bytes
  pub before : Db
  pub inserted : Inserted (params slug) w.now before row w'.db
  pub entries_same : before.entries ≡ w.db.entries
  pub alone : w'.schedule ≡ []
  pub same_time : w'.now ≡ w.now

retry_or_return-Appended :
    (params : Bytes → InsertEntryParams) (slug : Bytes) (again : Handler (Reply PostResponse) Entry)
    (r : Result DbError Entry) (w w1 w2 : World)
    → Still w w1
    → ((w3 : World) → Still w w3 → Outcome (Appended params w) (Left w) (again w3))
    → call {X = Reply PostResponse} (insert_entry (params slug)) w1 ≡ (go r, w2)
    → Outcome (Appended params w) (Left w) (retry_or_return again r w2)
retry_or_return-Appended params slug again (ok row) w w1 w2 s rest h =
    let (ran, t, alone) =
      call-alone {X = Reply PostResponse} (insert_entry (params slug)) w1 s.alone h in
    record {
      slug = slug;
      before = w1.db;
      inserted = insert_entry-Inserted _ w.now w1.db row w2.db (rw s.same_time at ran);
      entries_same = s.entries_same;
      alone = alone ∙ s.alone;
      same_time = t ∙ s.same_time;
    }
retry_or_return-Appended params slug again (err e) w w1 w2 s rest h =
    let (ran, t, alone) =
      call-alone {X = Reply PostResponse} (insert_entry (params slug)) w1 s.alone h in
    let still : Still w w2 = record {
      alone = alone ∙ s.alone;
      entries_same = insert_entry-left (params slug) w1.now w1.db ran ∙ s.entries_same;
      same_time = t ∙ s.same_time;
    } in
    elim (Bool-cases (is_slug_conflict e)) [ inl c ↦ rw c (rest w2 still) | inr c ↦ rw c still ]

pub insert_from-Appended :
    (params : Bytes → InsertEntryParams) (base : Bytes) (k n : ℕ) (w w1 : World)
    → Still w w1
    → Outcome (Appended params w) (Left w) (insert_from params base k n w1)
unfolding insert_from
insert_from-Appended params base zero n w w1 s = s
insert_from-Appended params base (suc k) n w w1 s =
    call_step _ (Left w) (insert_entry (params (with_suffix base n))) _ w1 (λ r w2 h.
      retry_or_return-Appended params (with_suffix base n) (insert_from params base k (suc n)) r w
        w1 w2 s (λ w3 s3. insert_from-Appended params base k (suc n) w w3 s3) h)
