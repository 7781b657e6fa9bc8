-- ===== src/Bin/Owned.antt =====
-- What a success of the bin's handlers tells, with other requests and failures at any moment.
use diarion_core.Prelude.{ℕ, ◌≡◌, ap, sym, true, Option, some, List, arith, ◌==◌, Bytes}
use diarion_core.Prelude.Result.{ok}
use diarion_core.Db.Models.{Db, Time, Entry}
use diarion_core.Db.Table.{delete_where, update_where, first_where, first_where-holds}
use diarion_core.Db.Agents.{is_some}
use diarion_core.Db.Entries.{unbin_entry}
use diarion_core.Db.Entries as Entries
use diarion_core.Db.Entries.Bin.{EntryWithAgent, join_agents, get_entry_by_id_for_owner}
use diarion_core.Db.Entries.Deletes.{delete_entries, hard_delete_entry}
use diarion_core.Db.World.{
  World, Reply, http_error, no_body, Nothing, Flow, go, stop, seen, read-eq-ok,
}
use diarion_core.Db.World.Ran.{Ran, call-Ran}
use diarion_core.Db.Outcome.{
  Outcome, require_step, or_return_step, call_step, guard_step, Outcome-serve,
}
use diarion_core.Middleware.{AuthUser}
use diarion_core.Entries.{missing_or_internal}
use diarion_core.Entries.Accepted.{IsRefusal, Refuses, missing_or_internal-IsRefusal}
use diarion_core.Bin.{
  parse_id_param, internal_error, restore_entry_steps, restore_entry, purge_entry_steps,
  purge_entry,
}

-- The first statement of the handler finds an entry in the bin of the user of the request, by the id
-- in the path.
pub record OwnBinned (attached : Option AuthUser) (raw : Bytes) (w : World) (id : ℕ) (w1 : World)
    : Type 0 where
  pub user : AuthUser
  pub is_user : attached ≡ some user
  pub is_id : parse_id_param raw ≡ some id
  pub row : EntryWithAgent
  pub found : Ran (get_entry_by_id_for_owner id user.user.id) w row w1
  pub own : row.agent.owner_id ≡ user.user.id
  pub same_id : row.entry.id ≡ id
  pub binned : is_some row.entry.removed_at ≡ true

-- An answer to a change of one entry in the bin: refused, or the tables that the second statement
-- saw with the rows of that id changed.
pub data Changed (change : ℕ → List Entry → List Entry) (attached : Option AuthUser) (raw : Bytes)
    (w : World) : Reply Nothing → World → Type 0 where
  refused : {w' : World} (x : Reply Nothing) → IsRefusal x → Changed change attached raw w x w'
  changed :
      {w' : World} (id : ℕ) (read : World)
      → OwnBinned attached raw w id read
      → w'.db ≡ record (seen read) { entries = change id (seen read).entries }
      → Changed change attached raw w (no_body 204) w'

abbrev pub restored : ℕ → List Entry → List Entry
restored id entries = update_where (λ e. e.id == id) unbin_entry entries

abbrev pub without : ℕ → List Entry → List Entry
without id entries = delete_where (λ e. e.id == id) entries

restore_entry-left :
    (id : ℕ) (now : Time) (db : Db) {u : Unit {0}} {db' : Db}
    → Entries.restore_entry id now db ≡ (ok u, db')
    → db' ≡ record db { entries = restored id db.entries }
unfolding Entries.restore_entry
restore_entry-left id now db h = sym (ap (λ p. p.1) h)

hard_delete_entry-left :
    (id : ℕ) (now : Time) (db : Db) {n : ℕ} {db' : Db}
    → hard_delete_entry id now db ≡ (ok n, db')
    → db' ≡ record db { entries = without id db.entries }
unfolding hard_delete_entry delete_entries
hard_delete_entry-left id now db h = sym (ap (λ p. p.1) h)

found_own :
    (attached : Option AuthUser) (raw : Bytes) (w : World) (id : ℕ) (u : AuthUser)
    (row : EntryWithAgent) (w1 : World)
    → attached ≡ some u
    → parse_id_param raw ≡ some id
    → Ran (get_entry_by_id_for_owner id u.user.id) w row w1
    → is_some row.entry.removed_at ≡ true
    → OwnBinned attached raw w id w1
unfolding get_entry_by_id_for_owner
found_own attached raw w id u row w1 is_user is_id found binned =
    let (hit, _) =
      read-eq-ok (first_where _ (join_agents (seen w).agents (seen w).entries)) _ found.ran in
    let holds = first_where-holds _ (join_agents (seen w).agents (seen w).entries) row hit in
    record {
      user = u;
      is_user = is_user;
      is_id = is_id;
      row = row;
      found = found;
      own = ground (arith, holds);
      same_id = ground (arith, holds);
      binned = binned;
    }

restore_entry_steps-Changed :
    (attached : Option AuthUser) (raw : Bytes) (w : World)
    → Outcome
        (Changed restored attached raw w)
        (Refuses Nothing)
        (restore_entry_steps attached raw w)
restore_entry_steps-Changed attached raw w =
    let S = Refuses Nothing in
    require_step _ S attached (http_error 401 "unauthorized") _ w (omega arith) (λ u is_user.
      require_step _ S (parse_id_param raw) (http_error 400 "invalid id") _ w (omega arith)
        (λ id is_id. call_step _ S (get_entry_by_id_for_owner id u.user.id) _ w (λ found w1 at_row.
          or_return_step _ S (missing_or_internal (http_error 404 "entry not found")) found _ w1
            (λ e. missing_or_internal-IsRefusal (http_error 404 "entry not found") e (omega arith))
            (λ row is_row.
              guard_step _ S (is_some row.entry.removed_at)
                (http_error 409 "entry is not in the bin") _ w1 (omega arith)
                (λ binned. call_step _ S (Entries.restore_entry id) _ w1 (λ r w2 at_change.
                  or_return_step _ S internal_error r _ w2 (λ e. omega arith)
                    (λ done is_done.
                      let ran =
                        call-Ran {X = Reply Nothing} (Entries.restore_entry id) w1
                          (rw is_done at at_change) in
                      changed id w1
                        (found_own attached raw w id u row w1 is_user is_id
                          (call-Ran {X = Reply Nothing} (get_entry_by_id_for_owner id u.user.id) w
                            (rw is_row at at_row))
                          binned)
                        (restore_entry-left id w2.now (seen w1) ran.ran))))))))

purge_entry_steps-Changed :
    (attached : Option AuthUser) (raw : Bytes) (w : World)
    → Outcome (Changed without attached raw w) (Refuses Nothing) (purge_entry_steps attached raw w)
purge_entry_steps-Changed attached raw w =
    let S = Refuses Nothing in
    require_step _ S attached (http_error 401 "unauthorized") _ w (omega arith) (λ u is_user.
      require_step _ S (parse_id_param raw) (http_error 400 "invalid id") _ w (omega arith)
        (λ id is_id. call_step _ S (get_entry_by_id_for_owner id u.user.id) _ w (λ found w1 at_row.
          or_return_step _ S (missing_or_internal (http_error 404 "entry not found")) found _ w1
            (λ e. missing_or_internal-IsRefusal (http_error 404 "entry not found") e (omega arith))
            (λ row is_row.
              guard_step _ S (is_some row.entry.removed_at)
                (http_error 409 "entry is not in the bin") _ w1 (omega arith)
                (λ binned. call_step _ S (hard_delete_entry id) _ w1 (λ r w2 at_change.
                  or_return_step _ S internal_error r _ w2 (λ e. omega arith)
                    (λ done is_done.
                      let ran =
                        call-Ran {X = Reply Nothing} (hard_delete_entry id) w1
                          (rw is_done at at_change) in
                      changed id w1
                        (found_own attached raw w id u row w1 is_user is_id
                          (call-Ran {X = Reply Nothing} (get_entry_by_id_for_owner id u.user.id) w
                            (rw is_row at at_row))
                          binned)
                        (hard_delete_entry-left id w2.now (seen w1) ran.ran))))))))

Outcome-Changed :
    (change : ℕ → List Entry → List Entry) (attached : Option AuthUser) (raw : Bytes) (w : World)
    (m : Flow (Reply Nothing) (Reply Nothing) × World)
    → Outcome (Changed change attached raw w) (Refuses Nothing) m
    → Outcome (Changed change attached raw w) (Changed change attached raw w) m
Outcome-Changed change attached raw w (go a, w') o = o
Outcome-Changed change attached raw w (stop x, w') o = refused x o

-- Whatever comes in between, RestoreEntry answers with an error status, or with 204: then a user is
-- attached, the first statement found, under the id of the path, an entry in the bin of an agent of
-- that user, and the tables left are those that the second statement saw, except that exactly the
-- rows of that id are live again.
pub restore_entry-Changed :
    (attached : Option AuthUser) (raw : Bytes) (w : World) (reply : Reply Nothing) (w' : World)
    → restore_entry attached raw w ≡ (reply, w')
    → Changed restored attached raw w reply w'
unfolding restore_entry
restore_entry-Changed attached raw w reply w' e =
    Outcome-serve (Changed restored attached raw w) (restore_entry_steps attached raw w)
      (Outcome-Changed restored attached raw w _ (restore_entry_steps-Changed attached raw w)) e

-- Whatever comes in between, PurgeEntry answers with an error status, or with 204: then a user is
-- attached, the first statement found, under the id of the path, an entry in the bin of an agent of
-- that user, and the tables left are those that the second statement saw, except that exactly the
-- rows of that id are gone.
pub purge_entry-Changed :
    (attached : Option AuthUser) (raw : Bytes) (w : World) (reply : Reply Nothing) (w' : World)
    → purge_entry attached raw w ≡ (reply, w')
    → Changed without attached raw w reply w'
unfolding purge_entry
purge_entry-Changed attached raw w reply w' e =
    Outcome-serve (Changed without attached raw w) (purge_entry_steps attached raw w)
      (Outcome-Changed without attached raw w _ (purge_entry_steps-Changed attached raw w)) e
