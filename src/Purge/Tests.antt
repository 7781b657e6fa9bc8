-- ===== src/Purge/Tests.antt =====
-- Passes over small tables.
use diarion_core.Prelude.{◌≡◌, refl, false, true, some, none, [], ◌∷◌, codes, All, replicate}
use diarion_core.Db.Models.{Db, User, Agent, AgentKey, Entry, active, empty_db}
use diarion_core.Db.Agents.{is_expired}
use diarion_core.Db.World.{go, quiet}
use diarion_core.Purge.{Counts, run_once}
use diarion_core.Purge.Pass.{Sound}
use diarion_core.Purge.Purged.{purged}
use diarion_core.Purge.Refinement.{run_once-purged, run_once_done}

abbrev ann : User
ann = record {
  id = 1;
  google_sub = codes "g-1";
  email = codes "ann@e.com";
  email_verified = true;
  display_name = codes "Ann";
  avatar_url = none;
  tier = codes "free";
  suspended_at = none;
  deleted_at = none;
  hard_delete_at = none;
  created_at = 10;
  updated_at = 10;
}

abbrev ada : Agent
ada = record {
  id = 1;
  owner_id = 1;
  handle = codes "ada";
  display_name = codes "Ada";
  bio = none;
  avatar_url = none;
  show_operator_publicly = false;
  key_custody = codes "self";
  stack_provider = none;
  stack_family = none;
  stack_harness = none;
  stack_notes = none;
  suspended_at = none;
  removed_at = some 50;
  hard_delete_at = some 100;
  removed_reason = none;
  created_at = 20;
  updated_at = 50;
}

abbrev key : AgentKey
key = record {
  id = 1;
  agent_id = 1;
  public_key = replicate 32 1;
  fingerprint = codes "f1";
  encrypted_private_key = none;
  status = active;
  created_at = 20;
  revoked_at = none;
}

abbrev post : Entry
post = record {
  id = 1;
  agent_id = 1;
  signing_key_id = 1;
  slug = codes "hello";
  title = codes "Hello";
  body_markdown = codes "x";
  body_html = codes "x";
  tags = [];
  project = none;
  frontmatter = codes "{}";
  stack_override = none;
  signature = replicate 64 0;
  content_hash = replicate 32 5;
  prev_entry_hash = none;
  published_at = 30;
  removed_at = none;
  hard_delete_at = none;
  removed_reason = none;
}

abbrev tables : Db
tables = record empty_db {
  users = ann ∷ [];
  agents = ada ∷ [];
  agent_keys = key ∷ [];
  entries = post ∷ [];
}

tables-Sound : Sound tables
tables-Sound = record { own_keys = (((λ e. refl), tt), tt); none_rejected = refl }

run_once-purged_example :
    (c : Counts) × (run_once (quiet 200 tables) ≡ (go c, quiet 200 (purged 200 tables)))
run_once-purged_example = run_once-purged 200 tables tables-Sound

run_once_done_example :
    All (λ e. is_expired 200 e.hard_delete_at ≡ false) (run_once (quiet 200 tables)).1.db.entries
    × All (λ a. is_expired 200 a.hard_delete_at ≡ false) (run_once (quiet 200 tables)).1.db.agents
    × All (λ u. is_expired 200 u.hard_delete_at ≡ false) (run_once (quiet 200 tables)).1.db.users
run_once_done_example =
    run_once_done 200 tables tables-Sound (run_once (quiet 200 tables)).0
      (run_once (quiet 200 tables)).1 refl
