-- ===== src/Entries/Deleted.antt =====
-- What an answer of Delete tells, with other requests and failures at any moment.
use diarion_core.Prelude.{
  ℕ, ◌≤◌, ◌≡◌, refl, ap, sym, Bool, true, false, not, ◌||◌, Option, none, some, arith, leb, ◌==◌,
  length, Bytes, bytes_eq, bytes_eq→eq, codes, String, Bool-cases, inl, inr,
}
use diarion_core.Prelude.Result.{Result, ok, err}
use diarion_core.Db.Models.{Db, Time, Agent, Entry}
use diarion_core.Db.Table.{update_where}
use diarion_core.Db.Agents.{is_some, get_agent_by_handle}
use diarion_core.Db.Entries.{
  get_entry_by_agent_and_slug, get_latest_entry_hash_for_agent, soft_delete_entry, bin_entry,
}
use diarion_core.Db.World.{
  Nothing, World, DbError, no_rows, fk_violation, check_violation, connection, unique_violation,
  Reply, http_error, no_body, json, Flow, go, stop, seen,
}
use diarion_core.Db.World.Ran.{Runs, Ran, call-Runs, call-Ran}
use diarion_core.Db.Outcome.{
  Outcome, Outcome-map, bind_step, goes_step, require_step, or_return_step, call_step, guard_step,
  Outcome-serve,
}
use diarion_core.Middleware.{AuthUser}
use diarion_core.Signing.Verifier.{VerifyResult}
use diarion_core.Entries.{Handlers, max_body_bytes, zeros32, Call, verify_call, missing_or_internal}
use diarion_core.Entries.Post.{is_empty}
use diarion_core.Entries.Delete.{
  check_anchor, authorize_by_signature, authorize_by_session, has_signature, authorize_delete,
  delete_steps, delete,
}
use diarion_core.Entries.Accepted.{
  IsRefusal, Refuses, unauthorized_step, verify_call-goes, missing_or_internal-IsRefusal, not_some,
}
use diarion_core.Entries.Submitted.{FollowsHead, follows, starts}

-- A signature by a key of the agent that names the chain head, checked from `w` to `w'`.
pub record SignedFor (h : Handlers) (c : Call) (agent : Agent) (w w' : World) : Type 0 where
  pub body : Bytes
  pub has_body : c.body ≡ some body
  pub after_verify : World
  pub res : VerifyResult
  pub verified : verify_call {X = Reply Nothing} h c body w ≡ (go (ok res), after_verify)
  pub own_key : res.agent_id ≡ agent.id
  pub head : Result DbError Bytes
  pub read_head : Runs (get_latest_entry_hash_for_agent agent.id) after_verify head w'
  pub on_head : FollowsHead res.prev_entry_hash head

-- Who may delete an entry of the agent, checked from `w` to `w'`.
pub data Allowed (h : Handlers) (c : Call) (attached : Option AuthUser) (agent : Agent)
    (w w' : World) : Type 0 where
  by_signature : has_signature c ≡ true → SignedFor h c agent w w' → Allowed h c attached agent w w'
  by_owner :
      (u : AuthUser)
      → has_signature c ≡ false
      → attached ≡ some u
      → u.user.id ≡ agent.owner_id
      → w' ≡ w
      → Allowed h c attached agent w w'

check_anchor-FollowsHead :
    (prev : Bytes) (r : Result DbError Bytes) (w : World)
    → Outcome (λ _ w'. FollowsHead prev r × (w' ≡ w)) (Refuses Nothing) (check_anchor prev r w)
unfolding check_anchor
check_anchor-FollowsHead prev (ok latest) w = elim (Bool-cases (bytes_eq prev latest)) [
  | inl e ↦ rw e (follows latest (bytes_eq→eq prev latest e), refl)
  | inr e ↦ rw e (omega arith)
]
check_anchor-FollowsHead prev (err no_rows) w = elim (Bool-cases (bytes_eq prev zeros32)) [
  | inl e ↦ rw e (starts (bytes_eq→eq prev zeros32 e), refl)
  | inr e ↦ rw e (omega arith)
]
check_anchor-FollowsHead prev (err fk_violation) w = omega arith
check_anchor-FollowsHead prev (err check_violation) w = omega arith
check_anchor-FollowsHead prev (err connection) w = omega arith
check_anchor-FollowsHead prev (err (unique_violation c)) w = omega arith

authorize_by_signature-SignedFor :
    (h : Handlers) (c : Call) (agent : Agent) (w : World)
    → Outcome
        (λ _ w'. SignedFor h c agent w w')
        (Refuses Nothing)
        (authorize_by_signature h c agent w)
unfolding authorize_by_signature
authorize_by_signature-SignedFor h c agent w =
    let S = Refuses Nothing in
    require_step _ S c.body (http_error 400 "read body") _ w (omega arith) (λ body has_body.
      guard_step _ S (leb (length body) max_body_bytes) (http_error 413 "body too large") _ w
        (omega arith)
        (λ len.
          goes_step _ S (verify_call h c body) _ w (verify_call-goes Nothing h c body w)
            (λ verified w1 at_verify. unauthorized_step Nothing _ verified _ w1 (λ res is_ok.
              guard_step _ S (res.agent_id == agent.id)
                (http_error 403 "key does not belong to this agent") _ w1 (omega arith)
                (λ own.
                  call_step _ S (get_latest_entry_hash_for_agent agent.id) _ w1 (λ head w2 at_head.
                    Outcome-map _ _ S (check_anchor res.prev_entry_hash head w2)
                      (λ _ w3 checked. record {
                        body = body;
                        has_body = has_body;
                        after_verify = w1;
                        res = res;
                        verified = cc;
                        own_key = ground (arith, own);
                        head = head;
                        read_head = rw (checked.1) (
                            call-Runs {X = Reply Nothing} (get_latest_entry_hash_for_agent agent.id)
                              w1 at_head);
                        on_head = checked.0;
                      })
                      (check_anchor-FollowsHead res.prev_entry_hash head w2)))))))

authorize_delete-Allowed :
    (signed : Bool) (h : Handlers) (c : Call) (attached : Option AuthUser) (agent : Agent)
    (w : World)
    → has_signature c ≡ signed
    → Outcome
        (λ _ w'. Allowed h c attached agent w w')
        (Refuses Nothing)
        (authorize_delete signed h c attached agent w)
unfolding authorize_by_session
authorize_delete-Allowed true h c attached agent w e =
    Outcome-map _ _ (Refuses Nothing) (authorize_by_signature h c agent w)
      (λ _ w' s. by_signature e s) (authorize_by_signature-SignedFor h c agent w)
authorize_delete-Allowed false h c none agent w e = omega arith
authorize_delete-Allowed false h c (some u) agent w e =
    elim (Bool-cases (u.user.id == agent.owner_id)) [
      | inl o ↦ rw o (by_owner u e refl (ground (arith, o)) refl)
      | inr o ↦ rw o (omega arith)
    ]

-- An answer of Delete in the world that it leaves.
pub data Deleted (h : Handlers) (c : Call) (slug : Bytes) (attached : Option AuthUser) (w : World)
    : Reply Nothing → World → Type 0 where
  refused :
      {code : ℕ} {text : String} {w' : World}
      → 400 ≤ code
      → Deleted h c slug attached w (http_error code text) w'
  deleted :
      {w' : World} (agent : Agent) (row : Entry) (w1 w2 w3 : World)
      → Ran (get_agent_by_handle c.handle) w agent w1
      → agent.suspended_at ≡ none
      → Allowed h c attached agent w1 w2
      → Ran (get_entry_by_agent_and_slug agent.id slug) w2 row w3
      → w'.db ≡ record (seen w3) {
        entries =
            update_where
              (λ e. e.id == row.id)
              (bin_entry w'.now (some (codes "user-deleted")))
              (seen w3).entries;
      }
      → Deleted h c slug attached w (no_body 204) w'

Deleted-IsRefusal :
    {h : Handlers} {c : Call} {slug : Bytes} {attached : Option AuthUser} {w : World}
    (x : Reply Nothing) (w' : World)
    → IsRefusal x
    → Deleted h c slug attached w x w'
Deleted-IsRefusal (http_error code text) w' r = refused r
Deleted-IsRefusal (no_body code) w' r = elim r [ ]
Deleted-IsRefusal (json code p) w' r = elim r [ ]

soft_delete_entry-left :
    (id : ℕ) (reason : Option Bytes) (now : Time) (db : Db) {u : Unit {0}} {db' : Db}
    → soft_delete_entry id reason now db ≡ (ok u, db')
    → db' ≡ record db { entries = update_where (λ e. e.id == id) (bin_entry now reason) db.entries }
unfolding soft_delete_entry
soft_delete_entry-left id reason now db h = sym (ap (λ p. p.1) h)

delete_steps-Deleted :
    (h : Handlers) (c : Call) (slug : Bytes) (attached : Option AuthUser) (w : World)
    → Outcome (Deleted h c slug attached w) (Refuses Nothing) (delete_steps h c slug attached w)
delete_steps-Deleted h c slug attached w =
    let S = Refuses Nothing in
    guard_step _ S (not (is_empty c.handle || is_empty slug))
      (http_error 400 "missing handle or slug") _ w (omega arith)
      (λ named. call_step _ S (get_agent_by_handle c.handle) _ w (λ found w1 at_agent.
        or_return_step _ S (missing_or_internal (http_error 404 "agent not found")) found _ w1
          (λ e. missing_or_internal-IsRefusal (http_error 404 "agent not found") e (omega arith))
          (λ agent is_found.
            guard_step _ S (not (is_some agent.suspended_at)) (http_error 403 "agent suspended") _
              w1 (omega arith)
              (λ live.
                bind_step _ S _ (authorize_delete (has_signature c) h c attached agent) _ w1
                  (authorize_delete-Allowed (has_signature c) h c attached agent w1 refl)
                  (λ _ w2 allowed.
                    call_step _ S (get_entry_by_agent_and_slug agent.id slug) _ w2
                      (λ found_entry w3 at_entry.
                        or_return_step _ S (missing_or_internal (http_error 404 "entry not found"))
                          found_entry _ w3
                          (λ e.
                            missing_or_internal-IsRefusal (http_error 404 "entry not found") e
                              (omega arith))
                          (λ row is_row.
                            call_step _ S (soft_delete_entry row.id (some (codes "user-deleted"))) _
                              w3
                              (λ r w4 at_delete.
                                or_return_step _ S (λ e. http_error 500 "internal error") r _ w4
                                  (λ e. omega arith)
                                  (λ done is_done.
                                    let N = Reply Nothing in
                                    let last =
                                      call-Ran {X = N}
                                        (soft_delete_entry row.id (some (codes "user-deleted"))) w3
                                        (rw is_done at at_delete) in
                                    deleted agent row w1 w2 w3
                                      (call-Ran {X = N} (get_agent_by_handle c.handle) w
                                        (rw is_found at at_agent))
                                      (not_some agent.suspended_at live) allowed
                                      (call-Ran {X = N} (get_entry_by_agent_and_slug agent.id slug)
                                        w2 (rw is_row at at_entry))
                                      (soft_delete_entry-left row.id (some (codes "user-deleted"))
                                        w4.now (seen w3) last.ran))))))))))

-- Whatever comes in between, Delete answers either with an error status or with 204. With 204 its
-- steps were, each starting where the one before it ended: the first statement found the agent of
-- the path, which is not suspended; either the request has a signature header and Verify accepted
-- it with a key of that agent and with the chain head, as the next statement read it, as its
-- previous hash, or it has none and its user owns the agent; a statement found a live entry of the
-- agent under the slug; and the tables left are those that the last statement saw, except that
-- exactly the rows with that entry's id are in the bin, for thirty days.
pub delete-Deleted :
    (h : Handlers) (c : Call) (slug : Bytes) (attached : Option AuthUser) (w : World)
    (reply : Reply Nothing) (w' : World)
    → delete h c slug attached w ≡ (reply, w')
    → Deleted h c slug attached w reply w'
unfolding delete
delete-Deleted h c slug attached w reply w' e =
    Outcome-serve (Deleted h c slug attached w) (delete_steps h c slug attached w)
      (refusal (delete_steps h c slug attached w) (delete_steps-Deleted h c slug attached w)) e
  where
    refusal :
        (m : Flow (Reply Nothing) (Reply Nothing) × World)
        → Outcome (Deleted h c slug attached w) (Refuses Nothing) m
        → Outcome (Deleted h c slug attached w) (Deleted h c slug attached w) m
    refusal (go a, w') o = o
    refusal (stop x, w') o = Deleted-IsRefusal x w' o
