-- ===== src/Keys.antt =====
-- internal/agents/keys/keys.go: fresh key pairs packaged for the two custody modes. The key pair
-- that ed25519.GenerateKey draws is an argument, `none` for a failed read; SHA-256 and AES-GCM are
-- parameters.
pub mod Custody
mod Tests
use diarion_core.Prelude.{
  ℕ, ◌≡◌, Option, none, some, ◌==◌, if◌then◌else◌, length, Bytes, codes, bytes_eq, ◌^◌,
}
use diarion_core.Prelude.Result.{Result, ok, err, ◌>>=◌, ◌>>◌, check, or_err}
use diarion_core.Stdlib.Hex
use diarion_core.Envelope
use diarion_core.Envelope.{Aead, EnvelopeError}

abbrev pub custody_managed : Bytes
custody_managed = codes "managed"

abbrev pub custody_self : Bytes
custody_self = codes "self"

abbrev pub private_key_size : ℕ
private_key_size = 64

pub record KeyPair : Type 0 where
  pub public_key : Bytes
  pub private_key : Bytes

pub record Issued : Type 0 where
  pub public_key : Bytes
  pub fingerprint : Bytes
  pub encrypted_private_key : Option Bytes
  pub plaintext_private_key : Option Bytes

pub data KeysError : Type 0 where
  generate_failed invalid_custody unexpected_length : KeysError
  wrap_failed unwrap_failed : EnvelopeError → KeysError

-- The three random reads of one Wrap.
pub record Randoms : Type 0 where
  pub dek : Option Bytes
  pub kek_nonce : Option Bytes
  pub dek_nonce : Option Bytes

abbrev pub map_err {ℓ} :
    {A : Type ℓ} → (EnvelopeError → KeysError) → Result EnvelopeError A → Result KeysError A
map_err f (ok a) = ok a
map_err f (err e) = err (f e)

module _ (aead : Aead) (sha256 : Bytes → Bytes) where
  unfoldable pub fingerprint : Bytes → Bytes
  fingerprint pub_key = Hex.encode (sha256 pub_key)

  unfoldable pub issue_managed : Bytes → Randoms → KeyPair → Result KeysError Issued
  issue_managed master_key r pair = do
    env ←
        map_err wrap_failed
          (Envelope.wrap aead master_key pair.private_key r.dek r.kek_nonce r.dek_nonce)
    ok (record {
      public_key = pair.public_key;
      fingerprint = fingerprint pair.public_key;
      encrypted_private_key = some env;
      plaintext_private_key = none;
    })

  unfoldable pub issue_self : KeyPair → Result KeysError Issued
  issue_self pair = ok (record {
    public_key = pair.public_key;
    fingerprint = fingerprint pair.public_key;
    encrypted_private_key = none;
    plaintext_private_key = some pair.private_key;
  })

  unfoldable pub issue : Bytes → Bytes → Option KeyPair → Randoms → Result KeysError Issued
  issue master_key custody drawn r = do
    pair ← or_err drawn generate_failed
    if bytes_eq custody custody_managed
        then issue_managed master_key r pair
        else if bytes_eq custody custody_self
        then issue_self pair
        else err invalid_custody

  unfoldable pub unwrap : Bytes → Bytes → Result KeysError Bytes
  unwrap master_key envelope_bytes = do
    plain ← map_err unwrap_failed (Envelope.unwrap aead master_key envelope_bytes)
    check (length plain == private_key_size) unexpected_length
    ok plain
