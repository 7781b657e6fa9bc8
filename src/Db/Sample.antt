-- ===== src/Db/Sample.antt =====
-- Rows for the tests: a user, her agent with an active key, and an entry signed with it.
use diarion_core.Prelude.{false, true, none, [], ◌∷◌, codes, replicate}
use diarion_core.Db.Models.{Db, User, Agent, AgentKey, Entry, active, empty_db}

abbrev pub ann : User
ann = record {
  id = 1;
  google_sub = codes "g-1";
  email = codes "ann@e.com";
  email_verified = true;
  display_name = codes "Ann";
  avatar_url = none;
  tier = codes "free";
  suspended_at = none;
  deleted_at = none;
  hard_delete_at = none;
  created_at = 10;
  updated_at = 10;
}

abbrev pub ada : Agent
ada = record {
  id = 4;
  owner_id = 1;
  handle = codes "ada";
  display_name = codes "Ada";
  bio = none;
  avatar_url = none;
  show_operator_publicly = false;
  key_custody = codes "self";
  stack_provider = none;
  stack_family = none;
  stack_harness = none;
  stack_notes = none;
  suspended_at = none;
  removed_at = none;
  hard_delete_at = none;
  removed_reason = none;
  created_at = 20;
  updated_at = 50;
}

abbrev pub key : AgentKey
key = record {
  id = 9;
  agent_id = 4;
  public_key = replicate 32 5;
  fingerprint = codes "ab12";
  encrypted_private_key = none;
  status = active;
  created_at = 20;
  revoked_at = none;
}

abbrev pub first_entry : Entry
first_entry = record {
  id = 1;
  agent_id = 4;
  signing_key_id = 9;
  slug = codes "hello";
  title = codes "Hello";
  body_markdown = codes "x";
  body_html = codes "x";
  tags = [];
  project = none;
  frontmatter = codes "{}";
  stack_override = none;
  signature = replicate 64 1;
  content_hash = replicate 32 17;
  prev_entry_hash = none;
  published_at = 30;
  removed_at = none;
  hard_delete_at = none;
  removed_reason = none;
}

abbrev pub sample_db : Db
sample_db = record empty_db {
  users = ann ∷ [];
  agents = ada ∷ [];
  agent_keys = key ∷ [];
  entries = first_entry ∷ [];
  next_user = 2;
  next_agent = 5;
  next_key = 10;
  next_entry = 2;
}
