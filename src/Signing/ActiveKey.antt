-- ===== src/Signing/ActiveKey.antt =====
-- The keys that the fetcher over the database lets through.
use diarion_core.Prelude.{
  ◌≡◌, refl, subst, true, some, arith, ◌==◌, length, Bytes, bytes_eq, bytes_eq→eq, Bool-cases, inl,
  inr,
}
use diarion_core.Prelude.Result.{Result, ok, err}
use diarion_core.Db.Models.{Db, AgentKey, KeyStatus, active, revoked}
use diarion_core.Db.Table.{first_where, first_where-holds}
use diarion_core.Db.World.{World, go, DbError, call, bind-eq-go, call-eq-ok, read-eq-ok}
use diarion_core.Db.Keys.{get_agent_key_by_fingerprint, is_active}
use diarion_core.Signing.Verifier.{AgentKeyRecord}
use diarion_core.Signing.Fetcher.{key_record, is_no_rows, fetched, db_fetch}

-- The row of a key, found by its fingerprint, and not revoked.
pub record ActiveKey (db : Db) (fingerprint : Bytes) (rec : AgentKeyRecord) : Type 0 where
  pub row : AgentKey
  pub found : first_where (λ k. bytes_eq k.fingerprint fingerprint) db.agent_keys ≡ some row
  pub named : row.fingerprint ≡ fingerprint
  pub active_row : row.status ≡ active
  pub public_key_len : length row.public_key ≡ 32
  pub same : rec ≡ key_record row

is_active-eq : (s : KeyStatus) → is_active s ≡ true → s ≡ active
unfolding is_active
is_active-eq active h = refl
is_active-eq revoked h = cc

fetched-eq-ok :
    (r : Result DbError AgentKey) (rec : AgentKeyRecord)
    → fetched r ≡ ok (some rec)
    → (row : AgentKey) × (r ≡ ok row)
      × (row.status ≡ active)
      × (length row.public_key ≡ 32)
      × (rec ≡ key_record row)
unfolding fetched
fetched-eq-ok (err e) rec h = elim (Bool-cases (is_no_rows e)) [
  | inl n ↦ let k = rw n at h in cc
  | inr n ↦ let k = rw n at h in cc
]
fetched-eq-ok (ok row) rec h = elim (Bool-cases (is_active row.status)) [
  | inl a ↦ elim (Bool-cases (length row.public_key == 32)) [
    | inl l ↦ (row, refl, is_active-eq row.status a, ground arith, ground arith)
    | inr l ↦ let k = rw (a, l) at h in cc
  ]
  | inr a ↦ let k = rw a at h in cc
]

module _ {X : Type 0} where
  -- A key record that the fetcher returns is that of a row of the key table as it stands when the
  -- fetch is over: the row has the fingerprint asked for and a public key of 32 bytes, and its
  -- status is active.
  pub db_fetch-ActiveKey :
      (fingerprint : Bytes) (w : World) (rec : AgentKeyRecord) (w' : World)
      → db_fetch {X = X} fingerprint w ≡ (go (ok (some rec)), w')
      → ActiveKey w'.db fingerprint rec
  unfolding get_agent_key_by_fingerprint
  db_fetch-ActiveKey fingerprint w rec w' h =
      let (r, w1, e, k) =
        bind-eq-go {X = X} (call (get_agent_key_by_fingerprint fingerprint)) _ w h in
      let (row, er, act, len, same) = fetched-eq-ok r rec cc in
      let done : call {X = X} (get_agent_key_by_fingerprint fingerprint) w ≡ (go (ok row), w') =
        cc in
      let (db, at) = call-eq-ok (get_agent_key_by_fingerprint fingerprint) w done in
      let (hit, eq) =
        read-eq-ok (first_where (λ k. bytes_eq k.fingerprint fingerprint) db.agent_keys) db at in
      let here : first_where (λ k. bytes_eq k.fingerprint fingerprint) w'.db.agent_keys ≡ some row =
        subst (λ d. first_where (λ k. bytes_eq k.fingerprint fingerprint) d.agent_keys ≡ some row)
          eq hit in
      record {
        row = row;
        found = here;
        named =
            bytes_eq→eq _ _ (
              first_where-holds (λ k. bytes_eq k.fingerprint fingerprint) w'.db.agent_keys row
                here);
        active_row = act;
        public_key_len = len;
        same = same;
      }
