-- ===== src/Entries/Retry.antt =====
-- The slug loop of Post with nobody else active.
use diarion_core.Prelude.{
  ℕ, zero, suc, ◌+◌, ◌≤◌, ◌<◌, ◌≡◌, refl, Bool, true, false, [], ◌∷◌, ◌++◌, arith, ◌==◌, length,
  any, Bytes,
}
use native.Mathlib.Decide.{ℕ_discrete}
use diarion_core.Prelude.Result.{ok, err}
use diarion_core.Db.Models.{Db, Time}
use diarion_core.Db.Entries.{InsertEntryParams, entry_of, slug_taken, insert_entry}
use diarion_core.Db.World.{unique_violation, slug_per_agent, go, call, quiet}
use diarion_core.Slug.{with_suffix}
use diarion_core.Entries.{is_slug_conflict}
use diarion_core.Entries.Post.{insert_from}

-- Rows that only a taken slug can keep out of the tables.
pub record Insertable (arg : InsertEntryParams) (db : Db) : Type 0 where
  pub signature_len : length arg.signature ≡ 64
  pub content_hash_len : length arg.content_hash ≡ 32
  pub agent_exists : any (λ a. a.id == arg.agent_id) db.agents ≡ true
  pub key_exists : any (λ k. k.id == arg.signing_key_id) db.agent_keys ≡ true

-- Whether the row's slug is taken.
abbrev pub taken : InsertEntryParams → Db → Bool
taken arg db = slug_taken arg.agent_id arg.slug db.entries

abbrev drawn : Db → Db
drawn db = record db { next_entry = suc db.next_entry }

insert_entry-taken :
    (arg : InsertEntryParams) (now : Time) (db : Db)
    → Insertable arg db
    → taken arg db ≡ true
    → insert_entry arg now db ≡ (err (unique_violation slug_per_agent), drawn db)
unfolding insert_entry
insert_entry-taken arg now db i t = rw (i.signature_len, i.content_hash_len, t) refl

insert_entry-free :
    (arg : InsertEntryParams) (now : Time) (db : Db)
    → Insertable arg db
    → taken arg db ≡ false
    → insert_entry arg now db ≡ (
      ok (entry_of db.next_entry now arg),
      record (drawn db) { entries = db.entries ++ entry_of db.next_entry now arg ∷ [] },
    )
unfolding insert_entry
insert_entry-free arg now db i t =
    rw (i.signature_len, i.content_hash_len, t, i.agent_exists, i.key_exists) refl

drawn-Insertable :
    (arg : InsertEntryParams) (db : Db) → Insertable arg db → Insertable arg (drawn db)
drawn-Insertable arg db i = record {
  signature_len = i.signature_len;
  content_hash_len = i.content_hash_len;
  agent_exists = i.agent_exists;
  key_exists = i.key_exists;
}

-- With nobody else active, and with rows that only a taken slug keeps out of the tables, `k` attempts
-- from number `n` on insert the row of the first attempt `m` whose slug is free, if that is one of
-- them, and the row is the only one added.
pub insert_from-first_free :
    (params : Bytes → InsertEntryParams) (base : Bytes) (k n m : ℕ) (now : Time) (db : Db)
    → ((s : Bytes) → Insertable (params s) db)
    → ((i : ℕ) → n ≤ i → i < m → taken (params (with_suffix base i)) db ≡ true)
    → taken (params (with_suffix base m)) db ≡ false
    → n ≤ m
    → m < n + k
    → (id : ℕ) × (db' : Db) × (insert_from params base k n (quiet now db)
        ≡ (go (entry_of id now (params (with_suffix base m))), quiet now db'))
      × (db'.entries ≡ db.entries ++ entry_of id now (params (with_suffix base m)) ∷ [])
unfolding insert_from call is_slug_conflict
insert_from-first_free params base zero n m now db ins ts free le lt =
    absurd (omega (arith, le, lt))
insert_from-first_free params base (suc k) n m now db ins ts free le lt = elim (ℕ_discrete n m) [
  | yes e ↦
      rw (e, insert_entry-free (params (with_suffix base m)) now db (ins (with_suffix base m)) free)
        (db.next_entry, _, refl, refl)
  | no d ↦
      let (id, db', run, entries) =
        insert_from-first_free params base k (suc n) m now (drawn db)
          (λ s. drawn-Insertable (params s) db (ins s)) (λ i l. ts i (omega (arith, l))) free
          (omega arith) (omega arith) in
      rw
        (insert_entry-taken (params (with_suffix base n)) now db (ins (with_suffix base n))
          (ts n (omega arith) (omega arith)))
        (id, db', run, entries)
]
