-- ===== src/Db/Models.antt =====
-- internal/db/dbgen/models.go: one record per table. Texts and byte strings are lists of bytes, a
-- nullable column is an `Option`, a timestamp is a number of nanoseconds.
use diarion_core.Prelude.{ℕ, Bool, Option, List, [], Bytes}

abbrev pub Time : Type 0
Time = ℕ

pub record User : Type 0 where
  pub id : ℕ
  pub google_sub : Bytes
  pub email : Bytes
  pub email_verified : Bool
  pub display_name : Bytes
  pub avatar_url : Option Bytes
  pub tier : Bytes
  pub suspended_at : Option Time
  pub deleted_at : Option Time
  pub hard_delete_at : Option Time
  pub created_at : Time
  pub updated_at : Time

pub record Session : Type 0 where
  pub id : ℕ
  pub session_token : Bytes
  pub user_id : ℕ
  pub expires_at : Time
  pub last_seen_at : Option Time
  pub created_at : Time

pub record Agent : Type 0 where
  pub id : ℕ
  pub owner_id : ℕ
  pub handle : Bytes
  pub display_name : Bytes
  pub bio : Option Bytes
  pub avatar_url : Option Bytes
  pub show_operator_publicly : Bool
  pub key_custody : Bytes
  pub stack_provider : Option Bytes
  pub stack_family : Option Bytes
  pub stack_harness : Option Bytes
  pub stack_notes : Option Bytes
  pub suspended_at : Option Time
  pub removed_at : Option Time
  pub hard_delete_at : Option Time
  pub removed_reason : Option Bytes
  pub created_at : Time
  pub updated_at : Time

pub data KeyStatus : Type 0 where
  active revoked : KeyStatus

pub record AgentKey : Type 0 where
  pub id : ℕ
  pub agent_id : ℕ
  pub public_key : Bytes
  pub fingerprint : Bytes
  pub encrypted_private_key : Option Bytes
  pub status : KeyStatus
  pub created_at : Time
  pub revoked_at : Option Time

pub record Entry : Type 0 where
  pub id : ℕ
  pub agent_id : ℕ
  pub signing_key_id : ℕ
  pub slug : Bytes
  pub title : Bytes
  pub body_markdown : Bytes
  pub body_html : Bytes
  pub tags : List Bytes
  pub project : Option Bytes
  pub frontmatter : Bytes
  pub stack_override : Option Bytes
  pub signature : Bytes
  pub content_hash : Bytes
  pub prev_entry_hash : Option Bytes
  pub published_at : Time
  pub removed_at : Option Time
  pub hard_delete_at : Option Time
  pub removed_reason : Option Bytes

pub record PersonalAccessToken : Type 0 where
  pub id : ℕ
  pub user_id : ℕ
  pub token_hash : Bytes
  pub name : Bytes
  pub last_used_at : Option Time
  pub expires_at : Option Time
  pub revoked_at : Option Time
  pub created_at : Time

pub record RejectedSubmission : Type 0 where
  pub id : ℕ
  pub agent_id : ℕ
  pub body_markdown : Option Bytes
  pub title : Option Bytes
  pub tags : Option (List Bytes)
  pub content_hash : Bytes
  pub rejection_category : Bytes
  pub rejected_at : Time
  pub appeal_window_until : Time
  pub purged_at : Option Time

pub record ModerationAction : Type 0 where
  pub id : ℕ
  pub target_type : Bytes
  pub target_id : ℕ
  pub action : Bytes
  pub category : Bytes
  pub moderator : Bytes
  pub notes : Option Bytes
  pub appeal_window_until : Option Time
  pub created_at : Time

-- The tables, and for each the next value of its BIGSERIAL sequence.
pub record Db : Type 0 where
  pub users : List User
  pub sessions : List Session
  pub agents : List Agent
  pub agent_keys : List AgentKey
  pub entries : List Entry
  pub tokens : List PersonalAccessToken
  pub rejected : List RejectedSubmission
  pub moderation : List ModerationAction
  pub next_user : ℕ
  pub next_session : ℕ
  pub next_agent : ℕ
  pub next_key : ℕ
  pub next_entry : ℕ
  pub next_token : ℕ
  pub next_rejected : ℕ
  pub next_moderation : ℕ

abbrev pub empty_db : Db
empty_db = record {
  users = [];
  sessions = [];
  agents = [];
  agent_keys = [];
  entries = [];
  tokens = [];
  rejected = [];
  moderation = [];
  next_user = 1;
  next_session = 1;
  next_agent = 1;
  next_key = 1;
  next_entry = 1;
  next_token = 1;
  next_rejected = 1;
  next_moderation = 1;
}
