-- ===== src/Entries/Tests.antt =====
-- Ada publishes an entry behind her first one, and deletes it.
use diarion_core.Prelude.{
  Bool-cases, inl, inr, ◌==◌, ℕ, ◌*◌, ◌≤◌, ◌<◌, ◌++◌, ◌≡◌, refl, true, false, Bytes, some, none, [],
  ◌∷◌, arith, codes, bytes_eq, replicate,
}
use diarion_core.Prelude.Result.{ok}
use diarion_core.Stdlib.Hex
use diarion_core.Stdlib.Strings.{
  to_lower, to_lower_byte, trim_left_hyphen, trim_right_hyphen, trim_space, trim_by, space_prefix,
  space_suffix, itoa, itoa_from,
}
use diarion_core.Db.Table.{first_where, order_by, insert_by, select_where, update_where}
use diarion_core.Db.Agents.{get_agent_by_handle}
use diarion_core.Db.Keys.{get_agent_key_by_fingerprint, is_active}
use diarion_core.Db.Entries.{
  InsertEntryParams, entry_of, get_latest_entry_hash_for_agent, entries_of, insert_entry,
  slug_taken, get_entry_by_agent_and_slug, soft_delete_entry,
}
use diarion_core.Slug.{slugify, write_runes, write_rune, is_slug_rune, finish, with_suffix}
use diarion_core.Signing.Message.{
  get, header_get, build_signature_base, base_lines, component_value, to_upper,
}
use diarion_core.Signing.Signer.{build_signature_input}
use diarion_core.Signing.Verifier.{
  precheck, postcheck, parse_content_digest, parse_signature_input, parse_signature_bytes,
  member_of, check_components, covers, in_window, equal_fold, fold_ascii,
}
use diarion_core.Db.Models.{Db, Entry, empty_db}
use diarion_core.Db.World.{World, call, Reply, json, no_body, http_error, go, quiet}
use diarion_core.Signing.Fetcher.{db_fetch, key_record, fetched, verify}
use diarion_core.Signing.ActiveKey.{ActiveKey, db_fetch-ActiveKey}
use diarion_core.Signing.Toy.{toy_sfv, toy_hash, toy_crypto, body, prev, second, signed_post}
use diarion_core.Entries.{PostRequest, Handlers, Call, is_slug_conflict}
use diarion_core.Entries.Post.{PostResponse, post, authorize, submit, check_head, insert_from}
use diarion_core.Entries.Delete.{delete, authorize_by_signature, check_anchor}
use diarion_core.Entries.Submitted.{Posted, post-Posted}
use diarion_core.Entries.Retry.{Insertable, taken, insert_from-first_free}
use diarion_core.Db.Sample.{ada, key, first_entry}
use diarion_core.Entries.Chain.{Chained, post-Chained}
use diarion_core.Entries.Head.{AllBefore, init, IsHead, post-IsHead}
use diarion_core.Entries.Deleted.{Deleted, delete-Deleted}

-- An entry whose hash is the one that the request names.
abbrev head_entry : Entry
head_entry = record first_entry { content_hash = prev }

abbrev tables : Db
tables = record empty_db {
  agents = ada ∷ [];
  agent_keys = key ∷ [];
  entries = head_entry ∷ [];
  next_entry = 2;
}

abbrev hello : PostRequest
hello = record {
  title = codes "Hello";
  body_markdown = codes "hi";
  tags = [];
  project = none;
  frontmatter = [];
  stack_override = [];
}

abbrev handlers : Handlers
handlers = record {
  sfv = toy_sfv;
  crypto = toy_crypto;
  unicode = record { fold = some; lower_runes = to_lower };
  unmarshal = λ s. some hello;
  render = some;
}

abbrev signed_call : Call
signed_call = record { handle = codes "ada"; request = signed_post; body = some body }

abbrev start : World
start = quiet (1100 * second) tables

post-Posted_example :
    Posted handlers signed_call start
      (post handlers signed_call start).0
      (post handlers signed_call start).1
post-Posted_example =
    post-Posted handlers signed_call start (post handlers signed_call start).0
      (post handlers signed_call start).1 refl

delete-Deleted_example :
    Deleted handlers signed_call
      (codes "hello")
      none
      start
      (delete handlers signed_call (codes "hello") none start).0
      (delete handlers signed_call (codes "hello") none start).1
delete-Deleted_example =
    delete-Deleted handlers signed_call (codes "hello") none start
      (delete handlers signed_call (codes "hello") none start).0
      (delete handlers signed_call (codes "hello") none start).1 refl

fetched_ab12 : db_fetch {X = ℕ} (codes "ab12") start ≡ (go (ok (some (key_record key))), start)
unfolding call fetched get_agent_key_by_fingerprint first_where bytes_eq is_active
fetched_ab12 = refl

db_fetch-ActiveKey_example : ActiveKey tables (codes "ab12") (key_record key)
db_fetch-ActiveKey_example =
    db_fetch-ActiveKey (codes "ab12") start (key_record key) start fetched_ab12

abbrev status : {R : Type 0} → Reply R → ℕ
status (http_error code text) = code
status (no_body code) = code
status (json code r) = code

-- The refused attempt at "hello" has used up id 2.
abbrev response : PostResponse
response = record {
  id = 3;
  agent_handle = codes "ada";
  slug = codes "hello-2";
  title = codes "Hello";
  body_html = codes "hi";
  tags = [];
  project = none;
  content_hash = Hex.encode (toy_hash 32 body);
  prev_entry_hash = Hex.encode prev;
  published_at = 1100 * second;
  permalink = codes "/ada/hello-2";
}

published :
    post handlers signed_call start ≡ (json 201 response, (post handlers signed_call start).1)
unfolding call fetched get_agent_key_by_fingerprint first_where bytes_eq is_active verify precheck
    postcheck parse_content_digest parse_signature_input parse_signature_bytes member_of get
    header_get check_components covers in_window equal_fold fold_ascii build_signature_base
    base_lines component_value build_signature_input to_lower to_lower_byte to_upper Hex.encode
    Hex.decode Hex.hex_digit Hex.from_hex_digit get_agent_by_handle post authorize submit check_head
    get_latest_entry_hash_for_agent entries_of order_by insert_by select_where insert_from
    insert_entry slug_taken is_slug_conflict slugify write_runes write_rune is_slug_rune finish
    trim_left_hyphen trim_right_hyphen with_suffix trim_space trim_by space_prefix space_suffix itoa
    itoa_from
published = refl

older :
    AllBefore
      (post handlers signed_call start).1.now
      (init (post handlers signed_call start).1.db.entries)
unfolding call fetched get_agent_key_by_fingerprint first_where bytes_eq is_active verify precheck
    postcheck parse_content_digest parse_signature_input parse_signature_bytes member_of get
    header_get check_components covers in_window equal_fold fold_ascii build_signature_base
    base_lines component_value build_signature_input to_lower to_lower_byte to_upper Hex.encode
    Hex.decode Hex.hex_digit Hex.from_hex_digit get_agent_by_handle post authorize submit check_head
    get_latest_entry_hash_for_agent entries_of order_by insert_by select_where insert_from
    insert_entry slug_taken is_slug_conflict slugify write_runes write_rune is_slug_rune finish
    trim_left_hyphen trim_right_hyphen with_suffix trim_space trim_by space_prefix space_suffix itoa
    itoa_from init
older = (omega arith, tt)

post-IsHead_example : IsHead handlers body (1200 * second) (post handlers signed_call start).1.db
post-IsHead_example =
    post-IsHead handlers signed_call start response (post handlers signed_call start).1 body
      (1200 * second) published refl older

tables-Chained : Chained tables
unfolding entries_of select_where order_by insert_by
tables-Chained agent = elim (Bool-cases (4 == agent)) [ inl e ↦ rw e (refl, tt) | inr e ↦ rw e tt ]

post-Chained_example : Chained (post handlers signed_call start).1.db
post-Chained_example =
    post-Chained handlers signed_call start (post handlers signed_call start).0
      (post handlers signed_call start).1 refl (omega arith, tt) tables-Chained refl

deleted : status (delete handlers signed_call (codes "hello") none start).0 ≡ 204
unfolding call fetched get_agent_key_by_fingerprint first_where bytes_eq is_active verify precheck
    postcheck parse_content_digest parse_signature_input parse_signature_bytes member_of get
    header_get check_components covers in_window equal_fold fold_ascii build_signature_base
    base_lines component_value build_signature_input to_lower to_lower_byte to_upper Hex.encode
    Hex.decode Hex.hex_digit Hex.from_hex_digit get_agent_by_handle delete authorize_by_signature
    check_anchor get_latest_entry_hash_for_agent entries_of order_by insert_by select_where
    get_entry_by_agent_and_slug soft_delete_entry update_where
deleted = refl

abbrev hello_again : Bytes → InsertEntryParams
hello_again slug = record {
  agent_id = 4;
  signing_key_id = 9;
  slug = slug;
  title = codes "Hello";
  body_markdown = codes "hi";
  body_html = codes "hi";
  tags = [];
  project = none;
  frontmatter = codes "{}";
  stack_override = none;
  signature = replicate 64 2;
  content_hash = replicate 32 3;
  prev_entry_hash = some prev;
}

all-Insertable : (s : Bytes) → Insertable (hello_again s) tables
all-Insertable s = record {
  signature_len = refl;
  content_hash_len = refl;
  agent_exists = refl;
  key_exists = refl;
}

first_taken :
    (i : ℕ) → 1 ≤ i → i < 2 → taken (hello_again (with_suffix (codes "hello") i)) tables ≡ true
unfolding slug_taken with_suffix bytes_eq
first_taken i l h = let e : i ≡ 1 = omega (arith, l, h) in rw e refl

second_free : taken (hello_again (with_suffix (codes "hello") 2)) tables ≡ false
unfolding slug_taken with_suffix bytes_eq itoa itoa_from
second_free = refl

insert_from-first_free_example :
    (id : ℕ) × (db' : Db) × (insert_from hello_again (codes "hello") 16 1 (quiet 90 tables)
      ≡ (go (entry_of id 90 (hello_again (with_suffix (codes "hello") 2))), quiet 90 db'))
    × (db'.entries
        ≡ tables.entries ++ entry_of id 90 (hello_again (with_suffix (codes "hello") 2)) ∷ [])
insert_from-first_free_example =
    insert_from-first_free hello_again (codes "hello") 16 1 2 90 tables all-Insertable first_taken
      second_free (omega arith) (omega arith)
