-- ===== src/Envelope.antt =====
-- internal/crypto/envelope/envelope.go: a payload sealed under a fresh key, and that key sealed
-- under the master key. AES-256-GCM is a parameter with the laws that the code relies on; what
-- crypto/rand gives is an argument, `none` for a failed read.
pub mod RoundTrip
mod Tests
use diarion_core.Prelude.{
  ℕ, suc, ◌+◌, ◌≡◌, Bool, false, ◌||◌, if◌then◌else◌, Option, none, some, [], ◌∷◌, ◌++◌, leb, ◌==◌,
  length, take, drop, Bytes, head?,
}
use diarion_core.Prelude.Result.{Result, ok, err, ◌>>=◌, ◌>>◌, check, or_err}

-- Seal and Open of cipher.AEAD with an empty destination and no additional data.
pub record Aead : Type 0 where
  pub seal : Bytes → Bytes → Bytes → Bytes
  pub unseal : Bytes → Bytes → Bytes → Option Bytes
  pub unseal-seal : (key nonce plain : Bytes) → unseal key nonce (seal key nonce plain) ≡ some plain
  pub length-seal : (key nonce plain : Bytes) → length (seal key nonce plain) ≡ length plain + 16

pub data EnvelopeError : Type 0 where
  master_key_len random_read bad_key format tampered : EnvelopeError

abbrev pub version : ℕ
version = 1

abbrev pub master_key_len_bytes : ℕ
master_key_len_bytes = 32

abbrev pub dek_len : ℕ
dek_len = 32

abbrev pub gcm_nonce_len : ℕ
gcm_nonce_len = 12

abbrev pub gcm_tag_len : ℕ
gcm_tag_len = 16

abbrev pub min_len : ℕ
min_len = 1 + gcm_nonce_len + dek_len + gcm_tag_len + gcm_nonce_len + gcm_tag_len

abbrev starts_with_version : Bytes → Bool
starts_with_version [] = false
starts_with_version (v ∷ s) = v == version

-- aes.NewCipher accepts keys of 16, 24 and 32 bytes; the cipher is then used by its key.
unfoldable pub new_gcm : Bytes → Option Bytes
new_gcm key = if length key == 16 || length key == 24 || length key == 32 then some key else none

unfoldable pub wrap :
    Aead → Bytes → Bytes → Option Bytes → Option Bytes → Option Bytes → Result EnvelopeError Bytes
wrap aead master_key plaintext random_dek random_kek_nonce random_dek_nonce = do
  check (length master_key == master_key_len_bytes) master_key_len
  dek ← or_err random_dek random_read
  kek_nonce ← or_err random_kek_nonce random_read
  dek_nonce ← or_err random_dek_nonce random_read
  kek ← or_err (new_gcm master_key) bad_key
  inner ← or_err (new_gcm dek) bad_key
  let wrapped_dek = aead.seal kek kek_nonce dek
  let payload = aead.seal inner dek_nonce plaintext
  ok (version ∷ (kek_nonce ++ (wrapped_dek ++ (dek_nonce ++ payload))))

unfoldable pub unwrap : Aead → Bytes → Bytes → Result EnvelopeError Bytes
unwrap aead master_key envelope_bytes = do
  check (length master_key == master_key_len_bytes) master_key_len
  check (leb min_len (length envelope_bytes)) format
  check (starts_with_version envelope_bytes) format
  let rest = drop 1 envelope_bytes
  let kek_nonce = take gcm_nonce_len rest
  let rest1 = drop gcm_nonce_len rest
  let wrapped_dek = take (dek_len + gcm_tag_len) rest1
  let rest2 = drop (dek_len + gcm_tag_len) rest1
  let dek_nonce = take gcm_nonce_len rest2
  let payload = drop gcm_nonce_len rest2
  kek ← or_err (new_gcm master_key) bad_key
  dek ← or_err (aead.unseal kek kek_nonce wrapped_dek) tampered
  inner ← or_err (new_gcm dek) bad_key
  or_err (aead.unseal inner dek_nonce payload) tampered
