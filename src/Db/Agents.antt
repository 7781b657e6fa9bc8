-- ===== src/Db/Agents.antt =====
-- internal/db/dbgen/agents.sql.go. LOWER is taken on ASCII letters, the only ones in handles.
pub mod Deletes
pub mod Inserted
use diarion_core.Prelude.{
  ℕ, suc, ◌+◌, ◌-◌, Bool, true, false, not, ◌&&◌, ◌||◌, Option, none, some, List, [], ◌∷◌, ◌++◌,
  leb, ltb, ◌==◌, if◌then◌else◌, length, any, take, drop, Bytes, bytes_eq, codes,
}
use diarion_core.Prelude.Result.{Result, ok, err, or_err}
use diarion_core.Stdlib.Strings.{to_lower}
use diarion_core.Db.Models.{Db, Time, User, Agent, AgentKey, Entry, RejectedSubmission}
use diarion_core.Db.Table.{
  select_where, first_where, update_where, delete_where, count_where, order_by,
}
use diarion_core.Db.World.{
  Query, DbError, no_rows, fk_violation, check_violation, unique_violation, handle_lower,
}

-- INTERVAL '30 days' and '1 second', in nanoseconds.
abbrev pub thirty_days : ℕ
thirty_days = 2592000000000000

abbrev pub one_second : ℕ
one_second = 1000000000

abbrev pub is_some {ℓ} : {A : Type ℓ} → Option A → Bool
is_some (some a) = true
is_some none = false

-- `hard_delete_at IS NOT NULL AND hard_delete_at <= NOW()`.
unfoldable pub is_expired : Time → Option Time → Bool
is_expired now (some t) = leb t now
is_expired now none = false

pub record InsertAgentParams : Type 0 where
  pub owner_id : ℕ
  pub handle : Bytes
  pub display_name : Bytes
  pub bio : Option Bytes
  pub avatar_url : Option Bytes
  pub show_operator_publicly : Bool
  pub key_custody : Bytes
  pub stack_provider : Option Bytes
  pub stack_family : Option Bytes
  pub stack_harness : Option Bytes
  pub stack_notes : Option Bytes

abbrev has_custody : Bytes → Bool
has_custody c = bytes_eq c (codes "managed") || bytes_eq c (codes "self")

abbrev pub same_handle : Bytes → Agent → Bool
same_handle h a = bytes_eq (to_lower a.handle) (to_lower h)

unfoldable pub insert_agent : InsertAgentParams → Query Agent
insert_agent arg now db =
    let row : Agent = record {
      id = db.next_agent;
      owner_id = arg.owner_id;
      handle = arg.handle;
      display_name = arg.display_name;
      bio = arg.bio;
      avatar_url = arg.avatar_url;
      show_operator_publicly = arg.show_operator_publicly;
      key_custody = arg.key_custody;
      stack_provider = arg.stack_provider;
      stack_family = arg.stack_family;
      stack_harness = arg.stack_harness;
      stack_notes = arg.stack_notes;
      suspended_at = none;
      removed_at = none;
      hard_delete_at = none;
      removed_reason = none;
      created_at = now;
      updated_at = now;
    } in
    let drawn : Db = record db { next_agent = suc db.next_agent } in
    if not (has_custody arg.key_custody)
    then (err check_violation, drawn)
    else if any (same_handle arg.handle) db.agents
    then (err (unique_violation handle_lower), drawn)
    else if not (any (λ u. u.id == arg.owner_id) db.users)
    then (err fk_violation, drawn)
    else (ok row, record drawn { agents = db.agents ++ row ∷ [] })

unfoldable pub get_agent_by_handle : Bytes → Query Agent
get_agent_by_handle h now db = (
  or_err (first_where (λ a. same_handle h a && not (is_some a.removed_at)) db.agents) no_rows,
  db,
)

-- GetAgentByIDAny runs the same statement.
unfoldable pub get_agent_by_id : ℕ → Query Agent
get_agent_by_id id now db = (or_err (first_where (λ a. a.id == id) db.agents) no_rows, db)

abbrev newer_agent : Agent → Agent → Bool
newer_agent a b = ltb b.created_at a.created_at

unfoldable pub list_agents_by_owner : ℕ → Query (List Agent)
list_agents_by_owner owner now db = (
  ok (
      order_by newer_agent
        (select_where (λ a. a.owner_id == owner && not (is_some a.removed_at)) db.agents)),
  db,
)

pub record UpdateAgentProfileParams : Type 0 where
  pub id : ℕ
  pub display_name : Bytes
  pub bio : Option Bytes
  pub avatar_url : Option Bytes
  pub show_operator_publicly : Bool
  pub stack_provider : Option Bytes
  pub stack_family : Option Bytes
  pub stack_harness : Option Bytes
  pub stack_notes : Option Bytes

-- An UPDATE … RETURNING of the row with the given id.
abbrev update_agent : ℕ → (Agent → Agent) → Query Agent
update_agent id f now db =
    let agents' = update_where (λ a. a.id == id) f db.agents in
    (or_err (first_where (λ a. a.id == id) agents') no_rows, record db { agents = agents' })

unfoldable pub update_agent_profile : UpdateAgentProfileParams → Query Agent
update_agent_profile arg now =
    update_agent arg.id
      (λ a. record a {
        display_name = arg.display_name;
        bio = arg.bio;
        avatar_url = arg.avatar_url;
        show_operator_publicly = arg.show_operator_publicly;
        stack_provider = arg.stack_provider;
        stack_family = arg.stack_family;
        stack_harness = arg.stack_harness;
        stack_notes = arg.stack_notes;
        updated_at = now;
      })
      now

-- Both values that the handlers pass meet the check on key_custody.
unfoldable pub update_agent_custody : ℕ → Bytes → Query Agent
update_agent_custody id custody now db =
    if has_custody custody
    then update_agent id (λ a. record a { key_custody = custody; updated_at = now }) now db
    else (err check_violation, db)

abbrev pub bin_agent : Time → Option Bytes → Agent → Agent
bin_agent now reason a = record a {
  removed_at = some now;
  hard_delete_at = some (now + thirty_days);
  removed_reason = reason;
  updated_at = now;
}

unfoldable pub soft_delete_agent : ℕ → Option Bytes → Query (Unit {0})
soft_delete_agent id reason now db =
    (ok tt, record db { agents = update_where (λ a. a.id == id) (bin_agent now reason) db.agents })

unfoldable pub restore_agent : ℕ → Query (Unit {0})
restore_agent id now db = (
  ok tt,
  record db {
    agents =
        update_where (λ a. a.id == id)
          (λ a. record a {
            removed_at = none;
            hard_delete_at = none;
            removed_reason = none;
            updated_at = now;
          })
          db.agents;
  },
)

unfoldable pub get_binned_agent_for_owner : ℕ → ℕ → Query Agent
get_binned_agent_for_owner id owner now db = (
  or_err (first_where (λ a. a.id == id && a.owner_id == owner && is_some a.removed_at) db.agents)
      no_rows,
  db,
)

-- `removed_at DESC`; the rows that are listed have one.
abbrev later : Option Time → Option Time → Bool
later (some s) (some t) = ltb t s
later (some s) none = false
later none (some t) = true
later none none = false

unfoldable pub list_binned_agents_by_owner : ℕ → ℕ → ℕ → Query (List Agent)
list_binned_agents_by_owner owner limit offset now db = (
  ok (
      take limit (
        drop offset (
          order_by (λ a b. later a.removed_at b.removed_at)
            (select_where (λ a. a.owner_id == owner && is_some a.removed_at) db.agents)))),
  db,
)

unfoldable pub count_binned_agents_by_owner : ℕ → Query ℕ
count_binned_agents_by_owner owner now db =
    (ok (count_where (λ a. a.owner_id == owner && is_some a.removed_at) db.agents), db)

-- COALESCE keeps what is there.
abbrev pub coalesce {ℓ} : {A : Type ℓ} → Option A → A → Option A
coalesce (some a) b = some a
coalesce none b = some b

unfoldable pub soft_delete_agents_by_user : ℕ → Query (Unit {0})
soft_delete_agents_by_user owner now db = (
  ok tt,
  record db {
    agents =
        update_where (λ a. a.owner_id == owner && not (is_some a.removed_at))
          (λ a. record a {
            removed_at = coalesce a.removed_at now;
            hard_delete_at = coalesce a.hard_delete_at (now + thirty_days);
            removed_reason = coalesce a.removed_reason (codes "cascade:user-self-delete");
            updated_at = now;
          })
          db.agents;
  },
)

-- Time does not go below zero here, where the epoch is far back.
unfoldable pub force_expire_binned_agent : ℕ → Query (Unit {0})
force_expire_binned_agent id now db = (
  ok tt,
  record db {
    agents =
        update_where (λ a. a.id == id && is_some a.removed_at)
          (λ a. record a { hard_delete_at = some (now - one_second) }) db.agents;
  },
)
