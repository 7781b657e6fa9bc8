-- ===== src/Bin.antt =====
-- internal/handlers/bin: restoring and deleting for good what is in a user's bin.
pub mod Owned
pub mod Emptied
pub mod Listed
pub mod Lists
mod Tests
use diarion_core.Prelude.{
  ℕ, ◌<◌, ◌^◌, Bool, true, false, not, ◌&&◌, Option, none, some, List, [], ◌∷◌, leb, ltb, ◌==◌,
  if◌then◌else◌, Bytes,
}
use diarion_core.Prelude.Result.{Result, ok, err}
use diarion_core.Stdlib.Strings.{value_from}
use diarion_core.Db.Models.{Db, Agent}
use diarion_core.Db.Agents as Agents
use diarion_core.Db.Agents.{is_some, get_binned_agent_for_owner, list_binned_agents_by_owner}
use diarion_core.Db.Agents.Deletes.{hard_delete_agent, hard_delete_agents_by_owner}
use diarion_core.Db.Entries as Entries
use diarion_core.Db.Entries.Bin.{BinSummary, get_entry_by_id_for_owner, get_bin_summary_for_owner}
use diarion_core.Db.Entries.Deletes.{
  hard_delete_entry, hard_delete_entries_for_agent, hard_delete_entries_by_owner,
}
use diarion_core.Db.World.{
  World, Query, DbError, Reply, http_error, no_body, json, Nothing, Handler, call, pure, require,
  guard, or_return, then_query, transaction, ◌>>=◌, ◌>>◌, serve,
}
use diarion_core.Middleware.{AuthUser, require_user}
use diarion_core.Entries.{missing_or_internal}

abbrev is_digit : ℕ → Bool
is_digit c = leb b'0' c && leb c b'9'

unfoldable pub all_digits : Bytes → Bool
all_digits [] = true
all_digits (c ∷ s) = is_digit c && all_digits s

-- A row of digits as an int64 above 0.
abbrev positive : Bytes → Option ℕ
positive [] = none
positive (c ∷ s) =
    if all_digits (c ∷ s) && ltb 0 (value_from 0 (c ∷ s)) && ltb (value_from 0 (c ∷ s)) (2 ^ 63)
    then some (value_from 0 (c ∷ s))
    else none

-- strconv.ParseInt takes a plus sign; what has a minus sign is not above 0.
unfoldable pub parse_id_param : Bytes → Option ℕ
parse_id_param [] = none
parse_id_param (c ∷ s) = if c == b'+' then positive s else positive (c ∷ s)

abbrev pub internal_error : {R : Type 0} → DbError → Reply R
internal_error e = http_error 500 "internal error"

-- RestoreEntry.
abbrev pub restore_entry_steps : Option AuthUser → Bytes → Handler (Reply Nothing) (Reply Nothing)
restore_entry_steps attached raw = do
  u ← require_user attached
  id ← require (parse_id_param raw) (http_error 400 "invalid id")
  found ← call (get_entry_by_id_for_owner id u.user.id)
  row ← or_return (missing_or_internal (http_error 404 "entry not found")) found
  guard (is_some row.entry.removed_at) (http_error 409 "entry is not in the bin")
  restored ← call (Entries.restore_entry id)
  done ← or_return internal_error restored
  pure (no_body 204)

unfoldable pub restore_entry : Option AuthUser → Bytes → World → Reply Nothing × World
restore_entry attached raw w = serve (restore_entry_steps attached raw w)

abbrev pub restore_agent_steps : Option AuthUser → Bytes → Handler (Reply Nothing) (Reply Nothing)
restore_agent_steps attached raw = do
  u ← require_user attached
  id ← require (parse_id_param raw) (http_error 400 "invalid id")
  found ← call (get_binned_agent_for_owner id u.user.id)
  a ← or_return (missing_or_internal (http_error 404 "agent not found")) found
  restored ← call (Agents.restore_agent a.id)
  done ← or_return internal_error restored
  pure (no_body 204)

unfoldable pub restore_agent : Option AuthUser → Bytes → World → Reply Nothing × World
restore_agent attached raw w = serve (restore_agent_steps attached raw w)

abbrev pub purge_entry_steps : Option AuthUser → Bytes → Handler (Reply Nothing) (Reply Nothing)
purge_entry_steps attached raw = do
  u ← require_user attached
  id ← require (parse_id_param raw) (http_error 400 "invalid id")
  found ← call (get_entry_by_id_for_owner id u.user.id)
  row ← or_return (missing_or_internal (http_error 404 "entry not found")) found
  guard (is_some row.entry.removed_at) (http_error 409 "entry is not in the bin")
  deleted ← call (hard_delete_entry id)
  done ← or_return internal_error deleted
  pure (no_body 204)

unfoldable pub purge_entry : Option AuthUser → Bytes → World → Reply Nothing × World
purge_entry attached raw w = serve (purge_entry_steps attached raw w)

-- purgeAgentTx.
abbrev pub purge_agent_tx : ℕ → Query ℕ
purge_agent_tx agent =
    transaction (then_query (hard_delete_entries_for_agent agent) (λ n. hard_delete_agent agent))

abbrev pub purge_agent_steps : Option AuthUser → Bytes → Handler (Reply Nothing) (Reply Nothing)
purge_agent_steps attached raw = do
  u ← require_user attached
  id ← require (parse_id_param raw) (http_error 400 "invalid id")
  found ← call (get_binned_agent_for_owner id u.user.id)
  a ← or_return (missing_or_internal (http_error 404 "agent not found")) found
  deleted ← call (purge_agent_tx a.id)
  done ← or_return internal_error deleted
  pure (no_body 204)

unfoldable pub purge_agent : Option AuthUser → Bytes → World → Reply Nothing × World
purge_agent attached raw w = serve (purge_agent_steps attached raw w)

-- The loop over the binned agents.
unfoldable pub delete_entries_of : List Agent → Query (Unit {0})
delete_entries_of [] now db = (ok tt, db)
delete_entries_of (a ∷ agents) now db =
    then_query (hard_delete_entries_for_agent a.id) (λ n. delete_entries_of agents) now db

-- emptyAllTx.
unfoldable pub empty_all_tx : ℕ → Query ℕ
empty_all_tx owner = transaction (
    then_query (list_binned_agents_by_owner owner 10000 0) (λ agents.
      then_query (delete_entries_of agents) (λ _.
        then_query (hard_delete_entries_by_owner owner) (λ n. hard_delete_agents_by_owner owner))))

abbrev pub empty_all_steps : Option AuthUser → Handler (Reply Nothing) (Reply Nothing)
empty_all_steps attached = do
  u ← require_user attached
  deleted ← call (empty_all_tx u.user.id)
  done ← or_return internal_error deleted
  pure (no_body 204)

unfoldable pub empty_all : Option AuthUser → World → Reply Nothing × World
empty_all attached w = serve (empty_all_steps attached w)

abbrev pub summary_steps : Option AuthUser → Handler (Reply BinSummary) (Reply BinSummary)
summary_steps attached = do
  u ← require_user attached
  r ← call (get_bin_summary_for_owner u.user.id)
  row ← or_return internal_error r
  pure (json 200 row)

unfoldable pub summary : Option AuthUser → World → Reply BinSummary × World
summary attached w = serve (summary_steps attached w)
