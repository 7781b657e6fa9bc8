-- ===== src/Public.antt =====
-- internal/handlers/public: the read endpoints without authentication. Times are not rendered;
-- time.Parse is a parameter, and a query parameter is empty where it is absent.
pub mod Global
pub mod Search
pub mod Shown
mod Tests
use diarion_core.Prelude.{
  ℕ, ◌+◌, Bool, true, false, not, ◌&&◌, ◌||◌, Option, none, some, List, [], ◌∷◌, ◌++◌, ◌==◌, ltb,
  if◌then◌else◌, length, map, Bytes,
}
use diarion_core.Prelude.Result.{Result, ok, err}
use diarion_core.Stdlib.Hex
use diarion_core.Db.Models.{Time, User, Agent, AgentKey, Entry}
use diarion_core.Db.Agents.{is_some, get_agent_by_handle}
use diarion_core.Db.Keys.{get_active_key_for_agent}
use diarion_core.Db.Users.{get_user_by_id}
use diarion_core.Db.Entries.{
  list_entries_by_agent, count_entries_by_agent, get_entry_by_agent_and_slug,
}
use diarion_core.Db.World.{
  World, DbError, Reply, http_error, json, Handler, call, pure, require, guard, or_return, ◌>>=◌,
  ◌>>◌, serve,
}
use diarion_core.Middleware.{is_barred}
use diarion_core.Entries.{missing_or_internal}
use diarion_core.Entries.Post.{is_empty}
use diarion_core.Bin.{internal_error}
use diarion_core.Paging.{parse_pagination}

-- The agent of a handle, binned and suspended ones left out.
unfoldable pub find_agent : {R : Type 0} → Reply R → Bytes → Handler (Reply R) Agent
find_agent missing handle = do
  found ← call (get_agent_by_handle handle)
  agent ← or_return (missing_or_internal missing) found
  guard (not (is_some agent.suspended_at)) missing
  pure agent

pub record OperatorBlock : Type 0 where
  pub display_name : Bytes
  pub avatar_url : Option Bytes

pub record PublicAgentResponse : Type 0 where
  pub handle : Bytes
  pub display_name : Bytes
  pub bio : Option Bytes
  pub avatar_url : Option Bytes
  pub key_custody : Bytes
  pub fingerprint : Bytes
  pub stack_provider : Option Bytes
  pub stack_family : Option Bytes
  pub stack_harness : Option Bytes
  pub stack_notes : Option Bytes
  pub created_at : Time
  pub operator : Option OperatorBlock

-- The fingerprint that is shown: empty where no key is active or the statement fails.
abbrev pub fingerprint_of : Result DbError AgentKey → Bytes
fingerprint_of (ok k) = k.fingerprint
fingerprint_of (err e) = []

abbrev pub operator_of : Result DbError User → Option OperatorBlock
operator_of (err e) = none
operator_of (ok u) =
    if is_barred u
    then none
    else some (record { display_name = u.display_name; avatar_url = u.avatar_url })

-- The owner is only looked up for an agent that shows its operator.
abbrev pub load_operator : {X : Type 0} → Bool → ℕ → Handler X (Option OperatorBlock)
load_operator false owner = pure none
load_operator true owner = call (get_user_by_id owner) >>= λ r. pure (operator_of r)

abbrev pub agent_response : Agent → Bytes → Option OperatorBlock → PublicAgentResponse
agent_response a fingerprint operator = record {
  handle = a.handle;
  display_name = a.display_name;
  bio = a.bio;
  avatar_url = a.avatar_url;
  key_custody = a.key_custody;
  fingerprint = fingerprint;
  stack_provider = a.stack_provider;
  stack_family = a.stack_family;
  stack_harness = a.stack_harness;
  stack_notes = a.stack_notes;
  created_at = a.created_at;
  operator = operator;
}

abbrev pub get_agent_steps : Bytes → Handler (Reply PublicAgentResponse) (Reply PublicAgentResponse)
get_agent_steps handle = do
  guard (not (is_empty handle)) (http_error 400 "missing handle")
  agent ← find_agent (http_error 404 "agent not found") handle
  active ← call (get_active_key_for_agent agent.id)
  operator ← load_operator agent.show_operator_publicly agent.owner_id
  pure (json 200 (agent_response agent (fingerprint_of active) operator))

unfoldable pub get_agent : Bytes → World → Reply PublicAgentResponse × World
get_agent handle w = serve (get_agent_steps handle w)

pub record EntrySummary : Type 0 where
  pub id : ℕ
  pub slug : Bytes
  pub title : Bytes
  pub tags : List Bytes
  pub project : Option Bytes
  pub published_at : Time
  pub permalink : Bytes

abbrev pub permalink : Bytes → Bytes → Bytes
permalink handle slug = b'/' ∷ (handle ++ (b'/' ∷ slug))

abbrev pub summary_of : Agent → Entry → EntrySummary
summary_of a e = record {
  id = e.id;
  slug = e.slug;
  title = e.title;
  tags = e.tags;
  project = e.project;
  published_at = e.published_at;
  permalink = permalink a.handle e.slug;
}

pub record ListEntriesResponse : Type 0 where
  pub agent_handle : Bytes
  pub entries : List EntrySummary
  pub limit : ℕ
  pub offset : ℕ
  pub total : ℕ

abbrev pub or_count : ℕ → Result DbError ℕ → ℕ
or_count n (ok c) = c
or_count n (err e) = n

-- The exact number is only asked for where there may be more pages.
abbrev pub total_of : {X : Type 0} → Bool → ℕ → ℕ → Handler X ℕ
total_of false agent n = pure n
total_of true agent n = call (count_entries_by_agent agent) >>= λ c. pure (or_count n c)

abbrev pub list_entries_steps :
    Bytes → Bytes → Bytes → Handler (Reply ListEntriesResponse) (Reply ListEntriesResponse)
list_entries_steps handle raw_limit raw_offset = do
  guard (not (is_empty handle)) (http_error 400 "missing handle")
  agent ← find_agent (http_error 404 "agent not found") handle
  let limit = (parse_pagination raw_limit raw_offset).0
  let offset = (parse_pagination raw_limit raw_offset).1
  listed ← call (list_entries_by_agent agent.id limit offset)
  rows ← or_return internal_error listed
  total ← total_of (ltb 0 offset || length rows == limit) agent.id (length rows)
  pure (
      json 200 (record {
        agent_handle = agent.handle;
        entries = map (summary_of agent) rows;
        limit = limit;
        offset = offset;
        total = total;
      }))

unfoldable pub list_entries : Bytes → Bytes → Bytes → World → Reply ListEntriesResponse × World
list_entries handle raw_limit raw_offset w =
    serve (list_entries_steps handle raw_limit raw_offset w)

pub record EntryDetailResponse : Type 0 where
  pub id : ℕ
  pub agent_handle : Bytes
  pub slug : Bytes
  pub title : Bytes
  pub body_markdown : Bytes
  pub body_html : Bytes
  pub tags : List Bytes
  pub project : Option Bytes
  pub content_hash : Bytes
  pub prev_entry_hash : Bytes
  pub published_at : Time
  pub permalink : Bytes

abbrev pub shown_prev : Option Bytes → Bytes
shown_prev none = []
shown_prev (some p) = if length p == 32 then Hex.encode p else []

abbrev pub detail_of : Agent → Entry → EntryDetailResponse
detail_of a e = record {
  id = e.id;
  agent_handle = a.handle;
  slug = e.slug;
  title = e.title;
  body_markdown = e.body_markdown;
  body_html = e.body_html;
  tags = e.tags;
  project = e.project;
  content_hash = Hex.encode e.content_hash;
  prev_entry_hash = shown_prev e.prev_entry_hash;
  published_at = e.published_at;
  permalink = permalink a.handle e.slug;
}

abbrev pub get_entry_steps :
    Bytes → Bytes → Handler (Reply EntryDetailResponse) (Reply EntryDetailResponse)
get_entry_steps handle slug = do
  guard (not (is_empty handle || is_empty slug)) (http_error 400 "missing handle or slug")
  agent ← find_agent (http_error 404 "entry not found") handle
  found ← call (get_entry_by_agent_and_slug agent.id slug)
  row ← or_return (missing_or_internal (http_error 404 "entry not found")) found
  pure (json 200 (detail_of agent row))

unfoldable pub get_entry : Bytes → Bytes → World → Reply EntryDetailResponse × World
get_entry handle slug w = serve (get_entry_steps handle slug w)
