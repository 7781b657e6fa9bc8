-- ===== src/Db/Entries/Inserted.antt =====
-- What an INSERT of an entry that succeeds has met and left.
use diarion_core.Prelude.{
  ◌≡◌, true, false, ◌&&◌, [], ◌∷◌, ◌++◌, arith, ◌==◌, length, any, Bool-cases, inl, inr,
}
use diarion_core.Prelude.Result.{ok, err}
use diarion_core.Db.World.{DbError}
use diarion_core.Db.Models.{Db, Time, Entry}
use diarion_core.Db.Entries.{InsertEntryParams, entry_of, slug_taken, insert_entry}

pub record Inserted (arg : InsertEntryParams) (now : Time) (db : Db) (row : Entry) (db' : Db)
    : Type 0 where
  pub row_is : row ≡ entry_of db.next_entry now arg
  pub appended : db'.entries ≡ db.entries ++ row ∷ []
  pub slug_free : slug_taken arg.agent_id arg.slug db.entries ≡ false
  pub lengths : (length arg.signature ≡ 64) × (length arg.content_hash ≡ 32)
  pub agent_exists : any (λ a. a.id == arg.agent_id) db.agents ≡ true
  pub key_exists : any (λ k. k.id == arg.signing_key_id) db.agent_keys ≡ true

pub insert_entry-Inserted :
    (arg : InsertEntryParams) (now : Time) (db : Db) (row : Entry) (db' : Db)
    → insert_entry arg now db ≡ (ok row, db')
    → Inserted arg now db row db'
unfolding insert_entry
insert_entry-Inserted arg now db row db' h =
    elim (Bool-cases (length arg.signature == 64 && length arg.content_hash == 32)) [
      | inr l ↦ let k = rw l at h in cc
      | inl l ↦ elim (Bool-cases (slug_taken arg.agent_id arg.slug db.entries)) [
        | inl s ↦ let k = rw (l, s) at h in cc
        | inr s ↦
            elim (Bool-cases (
              any (λ a. a.id == arg.agent_id) db.agents
              && any (λ k. k.id == arg.signing_key_id) db.agent_keys)) [
                | inr e ↦ let k = rw (l, s, e) at h in cc
                | inl e ↦
                    let k = rw (l, s, e) at h in
                    record {
                      row_is = cc;
                      appended = cc;
                      slug_free = s;
                      lengths = ground arith;
                      agent_exists = ground arith;
                      key_exists = ground arith;
                    }
              ]
      ]
    ]

-- An INSERT that fails leaves the entries as they are.
pub insert_entry-left :
    (arg : InsertEntryParams) (now : Time) (db : Db) {e : DbError} {db' : Db}
    → insert_entry arg now db ≡ (err e, db')
    → db'.entries ≡ db.entries
unfolding insert_entry
insert_entry-left arg now db h =
    elim (Bool-cases (length arg.signature == 64 && length arg.content_hash == 32)) [
      | inr l ↦ let k = rw l at h in cc
      | inl l ↦ elim (Bool-cases (slug_taken arg.agent_id arg.slug db.entries)) [
        | inl s ↦ let k = rw (l, s) at h in cc
        | inr s ↦
            elim (Bool-cases (
              any (λ a. a.id == arg.agent_id) db.agents
              && any (λ k. k.id == arg.signing_key_id) db.agent_keys)) [
                | inr e ↦ let k = rw (l, s, e) at h in cc
                | inl e ↦ let k = rw (l, s, e) at h in cc
              ]
      ]
    ]
