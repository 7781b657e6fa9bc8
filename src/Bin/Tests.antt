-- ===== src/Bin/Tests.antt =====
-- Ann restores an entry, deletes it for good, empties her bin, and lists it.
use diarion_core.Prelude.{◌≡◌, refl, false, some, Option, [], ◌∷◌, codes}
use diarion_core.Stdlib.Strings.{value_from}
use diarion_core.Db.Models.{Agent, Entry}
use diarion_core.Db.Sample.{ann, ada, first_entry, sample_db}
use diarion_core.Db.Table.{
  first_where, update_where, delete_where, select_where, order_by, insert_by, count_where,
}
use diarion_core.Db.World.{World, no_body, json, call, quiet}
use diarion_core.Db.Entries.Bin.{get_entry_by_id_for_owner, join_agents}
use diarion_core.Db.Entries.Deletes.{
  hard_delete_entry, delete_entries, hard_delete_entries_for_agent, hard_delete_entries_by_owner,
  agent_where,
}
use diarion_core.Db.Entries as Entries
use diarion_core.Db.Agents.{list_binned_agents_by_owner}
use diarion_core.Db.Agents.Deletes.{hard_delete_agents_by_owner, delete_agents, goes, key_goes}
use diarion_core.Middleware.{AuthUser}
use diarion_core.Bin.{
  parse_id_param, all_digits, restore_entry, purge_entry, empty_all, empty_all_tx,
  delete_entries_of,
}
use diarion_core.Bin.Owned.{Changed, restored, without, restore_entry-Changed, purge_entry-Changed}
use diarion_core.Bin.Emptied.{Emptied}
use diarion_core.Bin.Listed.{Listed, list_entries-Listed}
use diarion_core.Bin.Lists.{list_entries, page_of, entry_item}
use diarion_core.Paging.{parse_pagination, parse_limit, parse_offset}
use diarion_core.Stdlib.ParseInt.{parse_int}
use diarion_core.Db.Entries.Bin.{list_binned_entries_by_owner, count_binned_entries_by_owner}

-- Ann's entry, in the bin.
abbrev binned_entry : Entry
binned_entry = record first_entry { removed_at = some 40; hard_delete_at = some 900 }

abbrev bob : Agent
bob = record ada {
  id = 5;
  handle = codes "bob";
  display_name = codes "Bob";
  removed_at = some 40;
  hard_delete_at = some 900;
}

abbrev start : World
start = quiet 100 (record sample_db { agents = ada ∷ bob ∷ []; entries = binned_entry ∷ [] })

abbrev as_ann : Option AuthUser
as_ann = some (record { user = ann; via_pat = false })

restore_entry-Changed_example :
    Changed restored as_ann
      (codes "1")
      start
      (restore_entry as_ann (codes "1") start).0
      (restore_entry as_ann (codes "1") start).1
restore_entry-Changed_example =
    restore_entry-Changed as_ann (codes "1") start (restore_entry as_ann (codes "1") start).0
      (restore_entry as_ann (codes "1") start).1 refl

purge_entry-Changed_example :
    Changed without as_ann
      (codes "1")
      start
      (purge_entry as_ann (codes "1") start).0
      (purge_entry as_ann (codes "1") start).1
purge_entry-Changed_example =
    purge_entry-Changed as_ann (codes "1") start (purge_entry as_ann (codes "1") start).0
      (purge_entry as_ann (codes "1") start).1 refl

list_entries-Listed_example :
    Listed as_ann
      (codes "5")
      []
      start
      (list_entries as_ann (codes "5") [] start).0
      (list_entries as_ann (codes "5") [] start).1
list_entries-Listed_example =
    list_entries-Listed as_ann (codes "5") [] start (list_entries as_ann (codes "5") [] start).0
      (list_entries as_ann (codes "5") [] start).1 refl

restored_ok : (restore_entry as_ann (codes "1") start).0 ≡ no_body 204
unfolding restore_entry parse_id_param all_digits value_from call get_entry_by_id_for_owner
    join_agents first_where Entries.restore_entry update_where
restored_ok = refl

purged_ok : (purge_entry as_ann (codes "+1") start).0 ≡ no_body 204
unfolding purge_entry parse_id_param all_digits value_from call get_entry_by_id_for_owner
    join_agents first_where hard_delete_entry delete_entries delete_where count_where
purged_ok = refl

emptied_ok : (empty_all as_ann start).0 ≡ no_body 204
unfolding empty_all empty_all_tx call list_binned_agents_by_owner order_by insert_by select_where
    delete_entries_of hard_delete_entries_for_agent hard_delete_entries_by_owner agent_where
    delete_entries delete_where count_where hard_delete_agents_by_owner delete_agents goes key_goes
emptied_ok = refl

listed_ok :
    (list_entries as_ann (codes "5") [] start).0
    ≡ json 200 (page_of (entry_item (record { entry = binned_entry; agent = ada }) ∷ []) (5, 0) 1)
unfolding list_entries parse_pagination parse_limit parse_offset parse_int call
    list_binned_entries_by_owner count_binned_entries_by_owner join_agents first_where order_by
    insert_by select_where count_where
listed_ok = refl
