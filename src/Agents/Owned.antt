-- ===== src/Agents/Owned.antt =====
-- What the steps that the agent handlers share have gone through when they go on.
use diarion_core.Prelude.{
  ◌≡◌, ◌⊎◌, inl, inr, none, refl, false, not, Option, some, arith, ◌==◌, Bytes, bytes_eq,
}
use diarion_core.Prelude.Result.{Result, ok, err}
use diarion_core.Db.Models.{Agent, AgentKey}
use diarion_core.Db.Agents.{get_agent_by_handle}
use diarion_core.Db.Keys.{insert_agent_key, revoke_all_active_keys_for_agent}
use diarion_core.Db.World.{World, Reply, http_error, Handler, ◌>>=◌}
use diarion_core.Db.World.Ran.{Ran, call-Ran}
use diarion_core.Db.Outcome.{
  Outcome, require_step, or_return_step, call_step, guard_step, or_return_last,
}
use diarion_core.Keys.{Issued, KeysError, issue, custody_managed, custody_self}
use diarion_core.Keys.Custody.{IsSealed, issue-OneHolder}
use diarion_core.Middleware.{AuthUser}
use diarion_core.Entries.{missing_or_internal}
use diarion_core.Entries.Accepted.{Refuses, missing_or_internal-IsRefusal}
use diarion_core.Agents.{
  Handlers, Drawn, is_empty, internal_error, load_owned_agent, or_internal_error, issue_or_return,
  key_params, shown_key,
}
use diarion_core.Agents.Rotate.{replace_keys}

-- The handle names a live agent of the user of the request.
pub record Owned (attached : Option AuthUser) (handle : Bytes) (w : World) (a : Agent) (w' : World)
    : Type 0 where
  pub user : AuthUser
  pub is_user : attached ≡ some user
  pub named : is_empty handle ≡ false
  pub found : Ran (get_agent_by_handle handle) w a w'
  pub own : a.owner_id ≡ user.user.id

-- Fresh keys have taken the place of the active ones of an agent.
pub record Replaced (agent : Agent) (issued : Issued) (w : World) (key : AgentKey) (w' : World)
    : Type 0 where
  pub between : World
  pub revoked : Ran (revoke_all_active_keys_for_agent agent.id) w tt between
  pub inserted : Ran (insert_agent_key (key_params agent.id issued)) between key w'

-- A fresh key came out of Issue.
abbrev pub IsIssued : Handlers → Drawn → Bytes → Issued → Type 0
IsIssued h d custody i = issue h.aead h.sha256 h.master_key custody d.pair d.randoms ≡ ok i

-- Where the private key of a fresh pair is, by the custody: stored as the envelope in which Wrap
-- sealed it, and not handed out, or not stored.
abbrev pub KeptApart : Handlers → Drawn → Bytes → Option Bytes → Option Bytes → Type 0
KeptApart h d custody stored shown =
    ((custody ≡ custody_managed)
      × (shown ≡ none)
      × ((env : Bytes) × (stored ≡ some env)
          × IsSealed h.aead h.sha256 h.master_key d.pair d.randoms env))
    ⊎ ((custody ≡ custody_self) × (stored ≡ none))

shown_key-managed : (i : Issued) → shown_key custody_managed i ≡ none
unfolding shown_key bytes_eq
shown_key-managed i = refl

pub issued-KeptApart :
    (h : Handlers) (d : Drawn) (custody : Bytes) (i : Issued)
    → IsIssued h d custody i
    → KeptApart h d custody i.encrypted_private_key (shown_key custody i)
issued-KeptApart h d custody i e =
    elim (issue-OneHolder h.aead h.sha256 h.master_key custody d.pair d.randoms i e) [
      | inl (m, p, kept) ↦ inl (m, rw m (shown_key-managed i), kept)
      | inr (s, p) ↦ inr (s, p)
    ]

module _ (X : Type 0) where
  pub load_owned_agent-Owned :
      (attached : Option AuthUser) (handle : Bytes) (w : World)
      → Outcome
          (λ a w'. Owned attached handle w a w')
          (Refuses X)
          (load_owned_agent {R = X} attached handle w)
  unfolding load_owned_agent
  load_owned_agent-Owned attached handle w =
      let S = Refuses X in
      require_step _ S attached (http_error 401 "unauthorized") _ w (omega arith) (λ u is_user.
        guard_step _ S (not (is_empty handle)) (http_error 400 "missing handle") _ w (omega arith)
          (λ named. call_step _ S (get_agent_by_handle handle) _ w (λ found w1 at_agent.
            or_return_step _ S (missing_or_internal (http_error 404 "agent not found")) found _ w1
              (λ e.
                missing_or_internal-IsRefusal (http_error 404 "agent not found") e (omega arith))
              (λ a is_found.
                guard_step _ S (a.owner_id == u.user.id) (http_error 404 "agent not found") _ w1
                  (omega arith)
                  (λ own. record {
                    user = u;
                    is_user = is_user;
                    named = ground (arith, named);
                    found =
                        call-Ran {X = Reply X} (get_agent_by_handle handle) w
                          (rw is_found at at_agent);
                    own = ground (arith, own);
                  })))))

  pub issue_step :
      {B : Type 0} (R : B → World → Type 0) (h : Handlers) (d : Drawn) (custody : Bytes)
      (f : Issued → Handler (Reply X) B) (w : World)
      → ((i : Issued) → IsIssued h d custody i → Outcome R (Refuses X) (f i w))
      → Outcome R (Refuses X) ((issue_or_return h d custody >>= f) w)
  issue_step {B} R h d custody f w k =
      from (issue h.aead h.sha256 h.master_key custody d.pair d.randoms) refl
    where
      from :
          (r : Result KeysError Issued)
          → issue h.aead h.sha256 h.master_key custody d.pair d.randoms ≡ r
          → Outcome R (Refuses X) ((or_internal_error r >>= f) w)
      from (ok i) e = k i e
      from (err x) e = omega arith

  pub replace_keys-Replaced :
      (agent : Agent) (issued : Issued) (w : World)
      → Outcome
          (λ key w'. Replaced agent issued w key w')
          (Refuses X)
          (replace_keys {R = X} agent.id issued w)
  replace_keys-Replaced agent issued w =
      let S = Refuses X in
      call_step _ S (revoke_all_active_keys_for_agent agent.id) _ w (λ revoked w1 at_revoked.
        or_return_step _ S internal_error revoked _ w1 (λ e. omega arith)
          (λ done is_done.
            call_step _ S (insert_agent_key (key_params agent.id issued)) _ w1 (λ keyed w2 at_keyed.
              or_return_last _ S internal_error keyed w2 (λ e. omega arith)
                (λ key is_key. record {
                  between = w1;
                  revoked =
                      call-Ran {X = Reply X} (revoke_all_active_keys_for_agent agent.id) w
                        (rw is_done at at_revoked);
                  inserted =
                      call-Ran {X = Reply X} (insert_agent_key (key_params agent.id issued)) w1
                        (rw is_key at at_keyed);
                }))))
