-- ===== src/Entries/Delete.antt =====
-- internal/handlers/entries/delete.go.
use diarion_core.Prelude.{
  Bool, true, false, not, ◌||◌, Option, some, leb, ◌==◌, length, Bytes, bytes_eq, codes,
}
use diarion_core.Prelude.Result.{Result, ok, err}
use diarion_core.Db.Models.{Agent}
use diarion_core.Db.Agents.{is_some, get_agent_by_handle}
use diarion_core.Db.Entries.{
  get_entry_by_agent_and_slug, get_latest_entry_hash_for_agent, soft_delete_entry,
}
use diarion_core.Db.World.{
  Nothing, World, DbError, no_rows, Reply, http_error, no_body, Handler, call, pure, return, guard,
  or_return, ◌>>=◌, ◌>>◌, serve,
}
use diarion_core.Middleware.{AuthUser, require_user}
use diarion_core.Signing.Message.{header_get}
use diarion_core.Entries.{Handlers, max_body_bytes, zeros32, Call, verify_call, missing_or_internal}
use diarion_core.Entries.Post.{is_empty, or_read_error, or_unauthorized}

unfoldable pub check_anchor : Bytes → Result DbError Bytes → Handler (Reply Nothing) (Unit {0})
check_anchor prev (ok latest) =
    guard (bytes_eq prev latest) (http_error 409 "prev_entry_hash does not match chain head")
check_anchor prev (err no_rows) =
    guard (bytes_eq prev zeros32)
      (http_error 409 "prev_entry_hash must be zero when chain is empty")
check_anchor prev (err e) = return (http_error 500 "internal error")

unfoldable pub authorize_by_signature : Handlers → Call → Agent → Handler (Reply Nothing) (Unit {0})
authorize_by_signature h c agent = do
  body ← or_read_error c.body
  guard (leb (length body) max_body_bytes) (http_error 413 "body too large")
  verified ← verify_call h c body
  res ← or_unauthorized verified
  guard (res.agent_id == agent.id) (http_error 403 "key does not belong to this agent")
  latest ← call (get_latest_entry_hash_for_agent agent.id)
  check_anchor res.prev_entry_hash latest

unfoldable pub authorize_by_session : Option AuthUser → Agent → Handler (Reply Nothing) (Unit {0})
authorize_by_session attached agent = do
  u ← require_user attached
  guard (u.user.id == agent.owner_id) (http_error 404 "entry not found")

-- A signature header, empty or not there.
abbrev pub has_signature : Call → Bool
has_signature c =
    not (is_empty (header_get (codes "Signature") c.request.headers))
    || not (is_empty (header_get (codes "Signature-Input") c.request.headers))

abbrev pub authorize_delete :
    Bool → Handlers → Call → Option AuthUser → Agent → Handler (Reply Nothing) (Unit {0})
authorize_delete true h c attached agent = authorize_by_signature h c agent
authorize_delete false h c attached agent = authorize_by_session attached agent

abbrev pub delete_steps :
    Handlers → Call → Bytes → Option AuthUser → Handler (Reply Nothing) (Reply Nothing)
delete_steps h c slug attached = do
  guard (not (is_empty c.handle || is_empty slug)) (http_error 400 "missing handle or slug")
  found ← call (get_agent_by_handle c.handle)
  agent ← or_return (missing_or_internal (http_error 404 "agent not found")) found
  guard (not (is_some agent.suspended_at)) (http_error 403 "agent suspended")
  authorize_delete (has_signature c) h c attached agent
  found_entry ← call (get_entry_by_agent_and_slug agent.id slug)
  row ← or_return (missing_or_internal (http_error 404 "entry not found")) found_entry
  deleted ← call (soft_delete_entry row.id (some (codes "user-deleted")))
  done ← or_return (λ e. http_error 500 "internal error") deleted
  pure (no_body 204)

unfoldable pub delete : Handlers → Call → Bytes → Option AuthUser → World → Reply Nothing × World
delete h c slug attached w = serve (delete_steps h c slug attached w)
