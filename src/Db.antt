-- ===== src/Db.antt =====
-- internal/db: the tables of internal/db/migrations/001_initial_schema.up.sql and the statements
-- of internal/db/dbgen, each a function on the tables.
pub mod Models
pub mod Table
pub mod World
pub mod Keys
pub mod Agents
pub mod Entries
pub mod Users
pub mod Sessions
pub mod Tokens
pub mod Feeds
pub mod Moderation
pub mod Outcome
pub mod Sample
