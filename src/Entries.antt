-- ===== src/Entries.antt =====
-- internal/handlers/entries: signed submission, deletion and the chain anchor. Logging is left out;
-- the clock of the process and that of the database are one.
pub mod Post
pub mod Latest
pub mod Delete
pub mod Accepted
pub mod Submitted
pub mod Deleted
pub mod Head
pub mod Retry
pub mod Alone
pub mod Chain
mod Tests
use diarion_core.Prelude.{ℕ, Bool, true, false, Option, none, some, List, [], Bytes, replicate}
use diarion_core.Prelude.Result.{Result, ok, err}
use diarion_core.Db.World.{
  DbError, no_rows, unique_violation, slug_per_agent, Reply, http_error, Handler,
}
use diarion_core.Slug.{Unicode}
use diarion_core.Signing.Message.{Sfv, Crypto, Request}
use diarion_core.Signing.Verifier.{
  VerifyError, bad_digest, bad_signature, stale_signature, key_not_found, key_revoked, key_fetch,
  VerifyResult,
}
use diarion_core.Signing.Fetcher.{db_fetch, verify}

-- postRequest; an absent list of tags is the empty one, an absent raw message is empty.
pub record PostRequest : Type 0 where
  pub title : Bytes
  pub body_markdown : Bytes
  pub tags : List Bytes
  pub project : Option Bytes
  pub frontmatter : Bytes
  pub stack_override : Bytes

-- Handlers, and the calls of other packages: encoding/json of a body and internal/markdown.
pub record Handlers : Type 0 where
  pub sfv : Sfv
  pub crypto : Crypto
  pub unicode : Unicode
  pub unmarshal : Bytes → Option PostRequest
  pub render : Bytes → Option Bytes

abbrev pub max_body_bytes : ℕ
max_body_bytes = 1048576

abbrev pub slug_retry_limit : ℕ
slug_retry_limit = 16

abbrev pub zeros32 : Bytes
zeros32 = replicate 32 0

-- A request with a signature: the parts that are signed, and what ReadAll of at most
-- `max_body_bytes + 1` bytes of its body gives.
pub record Call : Type 0 where
  pub handle : Bytes
  pub request : Request
  pub body : Option Bytes

unfoldable pub verify_error : {R : Type 0} → VerifyError → Reply R
verify_error bad_digest = http_error 400 "Content-Digest mismatch"
verify_error bad_signature = http_error 401 "unauthorized"
verify_error stale_signature = http_error 401 "unauthorized"
verify_error key_not_found = http_error 401 "unauthorized"
verify_error key_revoked = http_error 401 "unauthorized"
verify_error key_fetch = http_error 401 "unauthorized"

-- Verify over the keys of the database.
abbrev pub verify_call :
    {X : Type 0} → Handlers → Call → Bytes → Handler X (Result VerifyError VerifyResult)
verify_call h c body w = verify db_fetch h.sfv h.crypto w.now c.request body w

-- How the handlers answer a failed statement: one text for no row, "internal error" otherwise.
unfoldable pub missing_or_internal : {R : Type 0} → Reply R → DbError → Reply R
missing_or_internal missing no_rows = missing
missing_or_internal missing e = http_error 500 "internal error"

unfoldable pub is_slug_conflict : DbError → Bool
is_slug_conflict (unique_violation slug_per_agent) = true
is_slug_conflict e = false
