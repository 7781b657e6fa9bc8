-- ===== src/Entries/Latest.antt =====
-- internal/handlers/entries/latest_hash.go.
use diarion_core.Prelude.{not, Option, none, some, Bytes}
use diarion_core.Prelude.Result.{Result, ok, err}
use diarion_core.Stdlib.Hex
use diarion_core.Db.Agents.{is_some, get_agent_by_handle}
use diarion_core.Db.Entries.{get_latest_entry_hash_for_agent}
use diarion_core.Db.World.{
  World, DbError, no_rows, Reply, http_error, json, Handler, call, pure, return, guard, or_return,
  ◌>>=◌, ◌>>◌, serve,
}
use diarion_core.Entries.{missing_or_internal}
use diarion_core.Entries.Post.{is_empty}

pub record LatestHashResponse : Type 0 where
  pub agent_handle : Bytes
  pub latest_hash : Option Bytes

unfoldable pub hash_or_null :
    Result DbError Bytes → Handler (Reply LatestHashResponse) (Option Bytes)
hash_or_null (ok hash) = pure (some (Hex.encode hash))
hash_or_null (err no_rows) = pure none
hash_or_null (err e) = return (http_error 500 "internal error")

abbrev pub latest_hash_steps : Bytes → Handler (Reply LatestHashResponse) (Reply LatestHashResponse)
latest_hash_steps handle = do
  guard (not (is_empty handle)) (http_error 400 "missing handle")
  found ← call (get_agent_by_handle handle)
  agent ← or_return (missing_or_internal (http_error 404 "agent not found")) found
  guard (not (is_some agent.suspended_at)) (http_error 404 "agent not found")
  latest ← call (get_latest_entry_hash_for_agent agent.id)
  hash ← hash_or_null latest
  pure (json 200 (record { agent_handle = agent.handle; latest_hash = hash }))

unfoldable pub latest_hash : Bytes → World → Reply LatestHashResponse × World
latest_hash handle w = serve (latest_hash_steps handle w)
