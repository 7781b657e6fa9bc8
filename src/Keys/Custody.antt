-- ===== src/Keys/Custody.antt =====
-- Who holds the private key after Issue.
use diarion_core.Prelude.{
  ◌≡◌, ◌⊎◌, inl, inr, refl, Option, none, some, length, Bytes, bytes_eq, bytes_eq→eq, Bool-cases,
}
use diarion_core.Prelude.Result.{Result, ok, err, bind-eq-ok}
use diarion_core.Envelope
use diarion_core.Envelope.{Aead}
use diarion_core.Envelope.RoundTrip.{unwrap-wrap}
use diarion_core.Keys.{
  KeysError, KeyPair, Randoms, Issued, custody_managed, custody_self, fingerprint, issue, unwrap,
  issue_managed, issue_self, map_err, wrap_failed,
}

map_err-eq-ok :
    {A : Type 0} (f : Envelope.EnvelopeError → KeysError) (r : Result Envelope.EnvelopeError A)
    {a : A}
    → map_err f r ≡ ok a
    → r ≡ ok a
map_err-eq-ok f (ok b) h = cc
map_err-eq-ok f (err e) h = cc

module _ (aead : Aead) (sha256 : Bytes → Bytes) where
  -- What the two modes promise about the private half of `pair`.
  pub data Held (master custody : Bytes) (pair : KeyPair) (i : Issued) : Type 0 where
    managed :
        custody ≡ custody_managed
        → i.plaintext_private_key ≡ none
        → (env : Bytes) → i.encrypted_private_key ≡ some env
        → unwrap aead sha256 master env ≡ ok pair.private_key
        → Held master custody pair i
    self_held :
        custody ≡ custody_self
        → i.encrypted_private_key ≡ none
        → i.plaintext_private_key ≡ some pair.private_key
        → Held master custody pair i

  issue_managed-Held :
      (master dek kek_nonce dek_nonce : Bytes) (pair : KeyPair)
      → length master ≡ 32
      → length dek ≡ 32
      → length kek_nonce ≡ 12
      → length dek_nonce ≡ 12
      → length pair.private_key ≡ 64
      → (i : Issued) × (issue_managed aead sha256 master
            (record { dek = some dek; kek_nonce = some kek_nonce; dek_nonce = some dek_nonce })
            pair
          ≡ ok i)
        × (i.fingerprint ≡ fingerprint aead sha256 pair.public_key)
        × Held master custody_managed pair i
  unfolding issue_managed unwrap
  issue_managed-Held master dek kek_nonce dek_nonce pair hm hd hk hn hp =
      let (env, wrapped, _, opened) =
        unwrap-wrap aead master dek kek_nonce dek_nonce pair.private_key hm hd hk hn in
      (
        record {
          public_key = pair.public_key;
          fingerprint = fingerprint aead sha256 pair.public_key;
          encrypted_private_key = some env;
          plaintext_private_key = none;
        },
        rw wrapped,
        refl,
        managed refl refl env refl (rw (opened, hp)),
      )

  -- Issue with either custody value, a 32-byte master key and successful random reads succeeds. A
  -- managed key comes only as an envelope, from which Unwrap gives the private key back; a
  -- self-held key comes only in plain. The fingerprint is that of the public key drawn.
  pub issue-Held :
      (master custody dek kek_nonce dek_nonce : Bytes) (pair : KeyPair)
      → (custody ≡ custody_managed) ⊎ (custody ≡ custody_self)
      → length master ≡ 32
      → length dek ≡ 32
      → length kek_nonce ≡ 12
      → length dek_nonce ≡ 12
      → length pair.private_key ≡ 64
      → (i : Issued) × (issue aead sha256 master custody
            (some pair)
            (record { dek = some dek; kek_nonce = some kek_nonce; dek_nonce = some dek_nonce })
          ≡ ok i)
        × (i.fingerprint ≡ fingerprint aead sha256 pair.public_key)
        × Held master custody pair i
  unfolding issue issue_self bytes_eq
  issue-Held master custody dek kek_nonce dek_nonce pair (inl m) hm hd hk hn hp =
      rw m (issue_managed-Held master dek kek_nonce dek_nonce pair hm hd hk hn hp)
  issue-Held master custody dek kek_nonce dek_nonce pair (inr s) hm hd hk hn hp =
      rw s (_, refl, refl, self_held refl refl refl)

  -- The envelope in which Wrap sealed the private half of a pair.
  abbrev pub IsSealed : Bytes → Option KeyPair → Randoms → Bytes → Type 0
  IsSealed master drawn r env =
      (pair : KeyPair) × (drawn ≡ some pair)
      × (Envelope.wrap aead master pair.private_key r.dek r.kek_nonce r.dek_nonce ≡ ok env)

  -- Where the private half of a key that Issue gave is: in an envelope to be stored, or in plain to
  -- be handed out.
  abbrev pub OneHolder : Bytes → Bytes → Option KeyPair → Randoms → Issued → Type 0
  OneHolder master custody drawn r i =
      ((custody ≡ custody_managed)
        × (i.plaintext_private_key ≡ none)
        × ((env : Bytes) × (i.encrypted_private_key ≡ some env) × IsSealed master drawn r env))
      ⊎ ((custody ≡ custody_self) × (i.encrypted_private_key ≡ none))

  issue_managed-IsSealed :
      (master : Bytes) (r : Randoms) (pair : KeyPair) (i : Issued)
      → issue_managed aead sha256 master r pair ≡ ok i
      → (i.plaintext_private_key ≡ none)
        × ((env : Bytes) × (i.encrypted_private_key ≡ some env) × IsSealed master (some pair) r env)
  unfolding issue_managed
  issue_managed-IsSealed master r pair i h =
      let (env, wrapped, made) =
        bind-eq-ok
          (map_err wrap_failed
            (Envelope.wrap aead master pair.private_key r.dek r.kek_nonce r.dek_nonce))
          _ h in
      (cc, (env, cc, (pair, refl, map_err-eq-ok _ _ wrapped)))

  issue_self-plain :
      (pair : KeyPair) (i : Issued)
      → issue_self aead sha256 pair ≡ ok i
      → i.encrypted_private_key ≡ none
  unfolding issue_self
  issue_self-plain pair i h = cc

  pub issue-OneHolder :
      (master custody : Bytes) (drawn : Option KeyPair) (r : Randoms) (i : Issued)
      → issue aead sha256 master custody drawn r ≡ ok i
      → OneHolder master custody drawn r i
  unfolding issue
  issue-OneHolder master custody none r i h = cc
  issue-OneHolder master custody (some pair) r i h =
      elim (Bool-cases (bytes_eq custody custody_managed)) [
        | inl m ↦ inl (
          bytes_eq→eq custody custody_managed m,
          (issue_managed-IsSealed master r pair i (rw m at h)).0,
          (issue_managed-IsSealed master r pair i (rw m at h)).1,
        )
        | inr m ↦ elim (Bool-cases (bytes_eq custody custody_self)) [
          | inl s ↦
              inr (bytes_eq→eq custody custody_self s, issue_self-plain pair i (rw (m, s) at h))
          | inr s ↦ let k = rw (m, s) at h in cc
        ]
      ]
