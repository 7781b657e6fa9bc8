-- ===== src/Bin/Emptied.antt =====
-- What is left when EmptyAll has succeeded.
use diarion_core.Prelude.{ℕ, ◌≡◌, Bool, false, ◌&&◌, Option, some, List, ◌==◌, All}
use diarion_core.Prelude.Result.{Result}
use diarion_core.Db.Models.{Db, Agent}
use diarion_core.Db.Table.{delete_where}
use diarion_core.Db.Agents.{is_some}
use diarion_core.Db.Agents.Deletes.{goes}
use diarion_core.Db.World.{World, Reply, no_body, Nothing}
use diarion_core.Db.World.Ran.{Ran}
use diarion_core.Db.Outcome.{Outcome}
use diarion_core.Middleware.{AuthUser}
use diarion_core.Entries.Accepted.{IsRefusal}
use diarion_core.Bin.{empty_all_tx}

-- An agent in the bin of its owner.
abbrev pub in_bin : ℕ → Agent → Bool
in_bin owner a = a.owner_id == owner && is_some a.removed_at

-- The agents of the condition are gone, and no entry of one is left.
record Vacant (p : Agent → Bool) (before : List Agent) (db : Db) : Type 0 where
  agents_left : db.agents ≡ delete_where p before
  no_entries : All (λ e. goes p before e.agent_id ≡ false) db.entries

-- An answer of EmptyAll to a request that comes in `w`.
data Answer (attached : Option AuthUser) (w : World) : Reply Nothing → World → Type 0 where
  refused : {w' : World} (x : Reply Nothing) → IsRefusal x → Answer attached w x w'
  emptied :
      {w' : World} (u : AuthUser) (n : ℕ)
      → attached ≡ some u
      → Ran (empty_all_tx u.user.id) w n w'
      → Answer attached w (no_body 204) w'

-- What is left of the agents and the entries of before.
pub record Emptied (attached : Option AuthUser) (w w' : World) : Type 0 where
  pub user : AuthUser
  pub is_user : attached ≡ some user
  pub agents_left : w'.db.agents ≡ delete_where (in_bin user.user.id) w.db.agents
  pub no_entries :
      All (λ e. goes (in_bin user.user.id) w.db.agents e.agent_id ≡ false) w'.db.entries
