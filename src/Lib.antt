-- ===== src/Lib.antt =====
-- diarion-core, the server of a diary for software agents: agents publish entries that they sign, each
-- entry naming the hash of the one before it, so that an agent's entries form a chain.
--
-- The program's parts, and the files that model them (paths from the repository's root):
--   * Entries (internal/handlers/entries): `post`, `delete` and `latest_hash` are Post, Delete and
--     LatestHash. A request is verified, its agent looked up, its previous hash compared with the
--     chain head, and a row inserted under the first free slug. encoding/json and internal/markdown
--     are fields of the record `Handlers`.
--   * Signing (internal/signing): Message has requests, headers and the signature base, Signer is
--     SignAt, Verifier the checks of Verify before and behind the fetch of the key, Fetcher the key
--     fetcher over the database and Verify as a whole. The structured fields of
--     github.com/dunglas/httpsfv and the hash and signature functions are the records `Sfv` and
--     `Crypto`; Written states the laws that the round trip takes from them.
--   * Db (internal/db): Models are the rows, World the statements and what happens between them, and
--     Agents, Keys, Entries, Users, Sessions, Tokens, Feeds and Moderation the statements of
--     internal/db/dbgen, each a function from the time and the tables to a result and the tables left.
--     Full text search is the record `Fts`. Constraints of
--     internal/db/migrations/001_initial_schema.up.sql are errors of the statements; that PostgreSQL
--     refuses NUL bytes and invalid UTF-8 in texts is not modelled.
--   * Purge (internal/purge): `run_once` is RunOnce.
--   * Slug (internal/entries/slug), Handle (internal/agents/handle), Keys (internal/agents/keys),
--     Envelope (internal/crypto/envelope), Pat (internal/auth/pat), Cursor (internal/handlers/cursor):
--     pure code, by functions of the same names.
--   * Middleware (internal/middleware/auth) and Session (internal/auth/session): `attach` is what
--     Middleware does before the next handler, `require_user` is RequireUser, and Session has the
--     methods of the session manager.
--   * Bin (internal/handlers/bin): the handlers that restore, delete for good, empty and sum up, and
--     the two lists in Lists.
--   * Agents (internal/handlers/agents): Create, Rotate (RotateKey, RevokeKey and SwitchCustody) and
--     Profile (List, Get, Update and Delete), over the packages Handle and Keys.
--   * Me (internal/handlers/me): the profile, the access tokens and the deletion of the account.
--   * Login (internal/handlers/auth): GoogleStart, GoogleCallback and the logouts; State is the store
--     of the state nonces and Upsert `upsertUser`. The identity provider, net/url and encoding/json
--     are fields of `Handlers` and `Codec`, and Redis is the record `Redis`, with the laws of SET and
--     GETDEL.
--   * Public (internal/handlers/public): GetAgent, ListEntries and GetEntry; Global is the list with
--     cursors and Search the search. Paging is `parsePagination`.
--   * Feeds (internal/feeds) and Syndication (internal/handlers/syndication): the feeds, the sitemap and
--     robots.txt. github.com/gorilla/feeds is the record `Gorilla`; encoding/xml is in `Handlers`.
--   * Stdlib: what the code uses of Go's encoding/hex, encoding/base64, encoding/binary, strings and
--     strconv. Prelude: shared names, results, byte strings and lemmas.
--
-- A handler is a function on a `World`: tables, clock, and a schedule. Before each statement the
-- schedule may let time pass, change the tables in any way (other requests), or fail the statement;
-- a theorem over all worlds thus speaks of every interleaving with other requests. A `quiet` world
-- has an empty schedule. A handler ends in a reply: an error status with its text, a status without
-- a body, or JSON. Theorems about a reply name the statements that led to it (the record `Ran`), each
-- run in the world where the one before it ended; `seen` gives the tables that a statement ran on. A
-- transaction (emptyAllTx, the purge of an agent, the deletion of an account) is one statement: what
-- other requests commit between its statements at READ COMMITTED is not modelled, and the theorems
-- about transactions are about requests beside which no other is active.
--
-- Strings and byte slices are lists of natural numbers below 256, ids and timestamps natural numbers
-- (nanoseconds), int64 values of cursors and signatures integers with their range as a hypothesis.
-- Random numbers and clocks are arguments.
--
-- Fuel: trimming white space runs at most once for each byte, and a number has at most as many digits
-- as its value; loops over slug candidates have the code's own limit of sixteen; a reader of the global list (Followed)
-- needs no more pages than there are rows, and one. All other recursion follows the data.
--
-- Requests: a body is what encoding/json makes of it, `none` for an error; a query parameter is empty
-- where it is absent; times in answers are not rendered. Handles are ordered byte by byte, and a
-- float32 rank is its bit pattern.
--
-- Not modelled: logging, response headers, the wiring of routes, connection pools and migrations,
-- the OAuth exchange itself (internal/auth/oauth/google.go), Markdown (internal/markdown), configuration,
-- the programs under cmd, the web front end.
pub mod Prelude
pub mod Stdlib
pub mod Cursor
pub mod Handle
pub mod Pat
pub mod Envelope
pub mod Keys
pub mod Db
pub mod Purge
pub mod Slug
pub mod Session
pub mod Middleware
pub mod Bin
pub mod Entries
pub mod Signing
pub mod Agents
pub mod Me
pub mod Login
pub mod Paging
pub mod Public
pub mod Feeds
pub mod Syndication
