-- ===== src/Entries/Accepted.antt =====
-- What a published entry went through, with other requests and failures at any moment.
use diarion_core.Prelude.{
  ◌≤◌, ◌≡◌, refl, true, false, not, Option, none, some, arith, leb, leb→le, ◌==◌, length, Bytes,
}
use diarion_core.Prelude.Result.{Result, ok, err}
use diarion_core.Db.Models.{Agent}
use diarion_core.Db.Agents.{is_some, get_agent_by_handle}
use diarion_core.Db.World.{
  World, DbError, no_rows, fk_violation, check_violation, connection, unique_violation, Reply,
  http_error, no_body, json, Flow, go, stop, Handler, serve, call-goes, ◌>>=◌,
}
use diarion_core.Db.World.Ran.{Ran, call-Ran}
use diarion_core.Db.Outcome.{
  Outcome, Outcome-serve, goes_step, require_step, or_return_step, call_step, guard_step,
}
use diarion_core.Signing.Verifier.{
  VerifyError, bad_digest, bad_signature, stale_signature, key_not_found, key_revoked, key_fetch,
  VerifyResult, Prechecked, precheck,
}
use diarion_core.Signing.Fetcher.{db_fetch, fetch_and_check, verify}
use diarion_core.Db.Keys.{get_agent_key_by_fingerprint}
use diarion_core.Entries.{
  Handlers, max_body_bytes, Call, verify_error, verify_call, missing_or_internal,
}
use diarion_core.Entries.Post.{is_empty, or_unauthorized, authorize}

-- An answer with an error status.
abbrev pub IsRefusal : {R : Type 0} → Reply R → Type 0
IsRefusal (http_error code text) = 400 ≤ code
IsRefusal (no_body code) = ⊥
IsRefusal (json code r) = ⊥

-- Who signed, and for which agent.
pub record Authorized (X : Type 0) (h : Handlers) (c : Call) (w : World) (agent : Agent)
    (res : VerifyResult) (body : Bytes) (w' : World) : Type 0 where
  pub named : is_empty c.handle ≡ false
  pub has_body : c.body ≡ some body
  pub body_len : length body ≤ max_body_bytes
  pub after_verify : World
  pub verified : verify_call {X = Reply X} h c body w ≡ (go (ok res), after_verify)
  pub agent_found : Ran (get_agent_by_handle c.handle) after_verify agent w'
  pub own_key : agent.id ≡ res.agent_id
  pub not_suspended : agent.suspended_at ≡ none

pub not_some : {A : Type 0} (o : Option A) → not (is_some o) ≡ true → o ≡ none
not_some none h = refl
not_some (some a) h = cc

verify_error-IsRefusal : (R : Type 0) (e : VerifyError) → IsRefusal (verify_error {R = R} e)
unfolding verify_error
verify_error-IsRefusal R bad_digest = omega arith
verify_error-IsRefusal R bad_signature = omega arith
verify_error-IsRefusal R stale_signature = omega arith
verify_error-IsRefusal R key_not_found = omega arith
verify_error-IsRefusal R key_revoked = omega arith
verify_error-IsRefusal R key_fetch = omega arith

pub missing_or_internal-IsRefusal :
    {R : Type 0} (missing : Reply R) (e : DbError)
    → IsRefusal missing
    → IsRefusal (missing_or_internal missing e)
unfolding missing_or_internal
missing_or_internal-IsRefusal missing no_rows h = h
missing_or_internal-IsRefusal missing fk_violation h = omega arith
missing_or_internal-IsRefusal missing check_violation h = omega arith
missing_or_internal-IsRefusal missing connection h = omega arith
missing_or_internal-IsRefusal missing (unique_violation c) h = omega arith

module _ (X : Type 0) where
  abbrev pub Refuses : Reply X → World → Type 0
  Refuses x w = IsRefusal x

  -- A handler that refuses or ends as `P` says.
  pub serve_or_refused :
      (P : Reply X → World → Type 0) (m : Flow (Reply X) (Reply X) × World) {reply : Reply X}
      {w' : World}
      → ((x : Reply X) (w1 : World) → IsRefusal x → P x w1)
      → Outcome P Refuses m
      → serve m ≡ (reply, w')
      → P reply w'
  serve_or_refused P m k o e = Outcome-serve P m (widened m o) e
    where
      widened : (m : Flow (Reply X) (Reply X) × World) → Outcome P Refuses m → Outcome P P m
      widened (go a, w1) o = o
      widened (stop x, w1) o = k x w1 o

  pub unauthorized_step :
      {B : Type 0} (R : B → World → Type 0) (r : Result VerifyError VerifyResult)
      (f : VerifyResult → Handler (Reply X) B) (w : World)
      → ((res : VerifyResult) → r ≡ ok res → Outcome R Refuses (f res w))
      → Outcome R Refuses ((or_unauthorized r >>= f) w)
  unauthorized_step R (ok res) f w k = k res refl
  unauthorized_step R (err e) f w k = verify_error-IsRefusal X e

  module _ (h : Handlers) (c : Call) where
    pub verify_call-goes :
        (body : Bytes) (w : World)
        → (r : Result VerifyError VerifyResult) × (w' : World) × (verify_call {X = Reply X} h c body
              w
            ≡ (go r, w'))
    unfolding verify
    verify_call-goes body w = from (precheck h.sfv h.crypto w.now c.request body)
      where
        from :
            (m : Result VerifyError Prechecked)
            → (r : Result VerifyError VerifyResult) × (w' : World) × (fetch_and_check {X = Reply X}
                  db_fetch h.sfv h.crypto c.request m w
                ≡ (go r, w'))
        from (err e) = (err e, w, refl)
        from (ok pre) =
            let (found, w1, e) =
              call-goes {X = Reply X} (get_agent_key_by_fingerprint pre.input.keyid) w in
            rw e (_, w1, refl)

    pub authorize-Authorized :
        (w : World)
        → Outcome (λ r w'. Authorized X h c w r.0 r.1 r.2 w') Refuses (authorize {X = X} h c w)
    unfolding authorize
    authorize-Authorized w =
        guard_step _ Refuses (not (is_empty c.handle)) (http_error 400 "missing handle") _ w
          (omega arith)
          (λ has_handle.
            require_step _ Refuses c.body (http_error 400 "read body") _ w (omega arith)
              (λ body has_body.
                guard_step _ Refuses (leb (length body) max_body_bytes)
                  (http_error 413 "request body too large") _ w (omega arith)
                  (λ len.
                    goes_step _ Refuses (verify_call h c body) _ w (verify_call-goes body w)
                      (λ verified w1 at_verify. unauthorized_step _ verified _ w1 (λ res is_ok.
                        call_step _ Refuses (get_agent_by_handle c.handle) _ w1
                          (λ found w2 at_agent.
                            or_return_step _ Refuses
                              (missing_or_internal (http_error 404 "agent not found")) found _ w2
                              (λ e.
                                missing_or_internal-IsRefusal (http_error 404 "agent not found") e
                                  (omega arith))
                              (λ agent is_found.
                                guard_step _ Refuses (agent.id == res.agent_id)
                                  (http_error 403 "key does not belong to this agent") _ w2
                                  (omega arith)
                                  (λ own.
                                    guard_step _ Refuses (not (is_some agent.suspended_at))
                                      (http_error 403 "agent suspended") _ w2 (omega arith)
                                      (λ live. record {
                                        named = ground (arith, has_handle);
                                        has_body = has_body;
                                        body_len = leb→le _ _ len;
                                        after_verify = w1;
                                        verified = cc;
                                        agent_found =
                                            call-Ran {X = Reply X} (get_agent_by_handle c.handle) w1
                                              (rw is_found at at_agent);
                                        own_key = ground (arith, own);
                                        not_suspended = not_some agent.suspended_at live;
                                      })))))))))
