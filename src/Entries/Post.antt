-- ===== src/Entries/Post.antt =====
-- internal/handlers/entries/post.go.
use diarion_core.Prelude.{
  ℕ, zero, suc, Bool, true, false, not, Option, none, some, List, [], ◌∷◌, ◌++◌, leb, ◌==◌,
  if◌then◌else◌, length, Bytes, bytes_eq, codes,
}
use diarion_core.Prelude.Result.{Result, ok, err}
use diarion_core.Stdlib.Hex
use diarion_core.Stdlib.Strings.{trim_space}
use diarion_core.Db.Models.{Time, Agent, Entry}
use diarion_core.Db.Agents.{is_some, get_agent_by_handle}
use diarion_core.Db.Entries.{InsertEntryParams, insert_entry, get_latest_entry_hash_for_agent}
use diarion_core.Db.World.{
  World, DbError, no_rows, Reply, http_error, json, Handler, call, pure, return, require, guard,
  or_return, ◌>>=◌, ◌>>◌, serve,
}
use diarion_core.Slug.{slugify, with_suffix}
use diarion_core.Signing.Verifier.{VerifyError, VerifyResult}
use diarion_core.Entries.{
  PostRequest, Handlers, max_body_bytes, slug_retry_limit, zeros32, Call, verify_error, verify_call,
  missing_or_internal, is_slug_conflict,
}

pub record PostResponse : Type 0 where
  pub id : ℕ
  pub agent_handle : Bytes
  pub slug : Bytes
  pub title : Bytes
  pub body_html : Bytes
  pub tags : List Bytes
  pub project : Option Bytes
  pub content_hash : Bytes
  pub prev_entry_hash : Bytes
  pub published_at : Time
  pub permalink : Bytes

abbrev pub is_empty : Bytes → Bool
is_empty [] = true
is_empty (c ∷ s) = false

abbrev pub non_empty : Bytes → Option Bytes
non_empty [] = none
non_empty (c ∷ s) = some (c ∷ s)

abbrev pub or_braces : Bytes → Bytes
or_braces [] = codes "{}"
or_braces (c ∷ s) = c ∷ s

-- A previous hash of zeros is NULL in the row.
abbrev pub prev_for_db : Bytes → Option Bytes
prev_for_db prev = if bytes_eq prev zeros32 then none else some prev

-- Whether the previous hash is the chain head that the query found, or zeros where it found none.
unfoldable pub check_head : Bytes → Result DbError Bytes → Handler (Reply PostResponse) (Unit {0})
check_head prev (ok latest) =
    guard (bytes_eq prev latest) (http_error 409 "prev_entry_hash does not match chain head")
check_head prev (err no_rows) =
    guard (bytes_eq prev zeros32)
      (http_error 409 "prev_entry_hash must be zero for the agent's first entry")
check_head prev (err e) = return (http_error 500 "internal error")

abbrev pub or_read_error : {X : Type 0} → Option Bytes → Handler (Reply X) Bytes
or_read_error body = require body (http_error 400 "read body")

-- Verify, its errors turned into replies.
abbrev pub or_unauthorized :
    {X : Type 0} → Result VerifyError VerifyResult → Handler (Reply X) VerifyResult
or_unauthorized (ok res) = pure res
or_unauthorized (err e) = return (verify_error e)

abbrev pub params_of :
    Agent → VerifyResult → PostRequest → Bytes → Bytes → Bytes → InsertEntryParams
params_of agent res req title html slug = record {
  agent_id = agent.id;
  signing_key_id = res.key_id;
  slug = slug;
  title = title;
  body_markdown = req.body_markdown;
  body_html = html;
  tags = req.tags;
  project = req.project;
  frontmatter = or_braces req.frontmatter;
  stack_override = non_empty req.stack_override;
  signature = res.signature;
  content_hash = res.content_digest;
  prev_entry_hash = prev_for_db res.prev_entry_hash;
}

abbrev pub retry_or_return :
    Handler (Reply PostResponse) Entry → Result DbError Entry → Handler (Reply PostResponse) Entry
retry_or_return again (ok row) = pure row
retry_or_return again (err e) =
    if is_slug_conflict e then again else return (http_error 500 "internal error")

-- The loop over candidates: `k` attempts are left and the next is number `n`.
unfoldable pub insert_from :
    (Bytes → InsertEntryParams) → Bytes → ℕ → ℕ → Handler (Reply PostResponse) Entry
insert_from params base zero n = return (http_error 500 "could not resolve slug collision")
insert_from params base (suc k) n = call (insert_entry (params (with_suffix base n))) >>= λ r.
    retry_or_return (insert_from params base k (suc n)) r

abbrev pub response_of : Agent → Entry → PostResponse
response_of agent row = record {
  id = row.id;
  agent_handle = agent.handle;
  slug = row.slug;
  title = row.title;
  body_html = row.body_html;
  tags = row.tags;
  project = row.project;
  content_hash = Hex.encode row.content_hash;
  prev_entry_hash = shown row.prev_entry_hash;
  published_at = row.published_at;
  permalink = b'/' ∷ (agent.handle ++ (b'/' ∷ row.slug));
}
  where
    shown : Option Bytes → Bytes
    shown none = []
    shown (some p) = if length p == 32 then Hex.encode p else []

-- From the request's reading to the agent that it is for.
unfoldable pub authorize :
    {X : Type 0} → Handlers → Call → Handler (Reply X) (Agent × VerifyResult × Bytes)
authorize h c = do
  guard (not (is_empty c.handle)) (http_error 400 "missing handle")
  body ← or_read_error c.body
  guard (leb (length body) max_body_bytes) (http_error 413 "request body too large")
  verified ← verify_call h c body
  res ← or_unauthorized verified
  found ← call (get_agent_by_handle c.handle)
  agent ← or_return (missing_or_internal (http_error 404 "agent not found")) found
  guard (agent.id == res.agent_id) (http_error 403 "key does not belong to this agent")
  guard (not (is_some agent.suspended_at)) (http_error 403 "agent suspended")
  pure (agent, res, body)

-- The rest of Post: the body's fields, the chain head and the insertion.
unfoldable pub submit : Handlers → Agent → VerifyResult → Bytes → Handler (Reply PostResponse) Entry
submit h agent res body = do
  req ← require (h.unmarshal body) (http_error 400 "invalid JSON body")
  let title = trim_space req.title
  guard (not (is_empty title)) (http_error 400 "title is required")
  guard (not (is_empty req.body_markdown)) (http_error 400 "body_markdown is required")
  latest ← call (get_latest_entry_hash_for_agent agent.id)
  check_head res.prev_entry_hash latest
  html ← require (h.render req.body_markdown) (http_error 500 "internal error")
  insert_from (params_of agent res req title html) (slugify h.unicode title) slug_retry_limit 1

abbrev pub post_steps : Handlers → Call → Handler (Reply PostResponse) (Reply PostResponse)
post_steps h c = do
  (agent, res, body) ← authorize h c
  row ← submit h agent res body
  pure (json 201 (response_of agent row))

unfoldable pub post : Handlers → Call → World → Reply PostResponse × World
post h c w = serve (post_steps h c w)
