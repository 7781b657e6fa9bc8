-- ===== src/Signing/Written.antt =====
-- What the headers that SignAt writes parse to, and the laws of the packages that write them.
use diarion_core.Prelude.{
  ℕ, ◌+◌, ◌/◌, ◌≤◌, ◌<◌, ◌≡◌, refl, true, some, ◌∷◌, arith, All, length, Bytes, IsBytes, bytes_eq,
  bytes_eq_refl,
}
use diarion_core.Prelude.Int.{ℤ, pos}
use diarion_core.Prelude.Result.{ok}
use diarion_core.Signing.Message.{Sfv, Crypto, get}
use diarion_core.Signing.Signer.{
  digest_dictionary, build_signature_input, input_dictionary, signature_dictionary,
}
use diarion_core.Signing.Verifier.{
  member_of, parse_content_digest, SignatureInput, parse_signature_input, parse_signature_bytes,
  covers, check_components, window, in_window, equal_fold,
}

-- A character that an RFC 8941 string may hold.
abbrev pub IsPrintable : ℕ → Type 0
IsPrintable c = (32 ≤ c) × (c < 127)

-- What github.com/dunglas/httpsfv does with the three dictionaries that a signer writes: it writes
-- each as a header that is not empty, and reads it back. Strings are printable ASCII and integers
-- have at most fifteen digits.
pub record WritesDictionaries (sfv : Sfv) : Type 0 where
  pub digest :
      (b : Bytes)
      → IsBytes b
      → (c : ℕ) × (h : Bytes) × (sfv.marshal_dictionary (digest_dictionary b) ≡ some (c ∷ h))
        × (sfv.unmarshal_dictionary (c ∷ h) ≡ some (digest_dictionary b))
  pub signature :
      (b : Bytes)
      → IsBytes b
      → (c : ℕ) × (h : Bytes) × (sfv.marshal_dictionary (signature_dictionary b) ≡ some (c ∷ h))
        × (sfv.unmarshal_dictionary (c ∷ h) ≡ some (signature_dictionary b))
  pub inner_list :
      (created : ℕ) (keyid : Bytes)
      → created < 1000000000000000
      → All IsPrintable keyid
      → (c : ℕ) × (h params : Bytes) × (sfv.marshal_dictionary
            (input_dictionary (build_signature_input (pos created) keyid))
          ≡ some (c ∷ h))
        × (sfv.unmarshal_dictionary (c ∷ h)
            ≡ some (input_dictionary (build_signature_input (pos created) keyid)))
        × (sfv.marshal_inner_list (build_signature_input (pos created) keyid) ≡ some params)

-- What crypto/sha256 and crypto/ed25519 do with a key pair.
pub record Signs (crypto : Crypto) (priv public_key : Bytes) : Type 0 where
  pub length-sha256 : (s : Bytes) → length (crypto.sha256 s) ≡ 32
  pub sha256-IsBytes : (s : Bytes) → IsBytes (crypto.sha256 s)
  pub length-sign : (msg : Bytes) → length (crypto.ed25519_sign priv msg) ≡ 64
  pub sign-IsBytes : (msg : Bytes) → IsBytes (crypto.ed25519_sign priv msg)
  pub verify-sign :
      (msg : Bytes) → crypto.ed25519_verify public_key msg (crypto.ed25519_sign priv msg) ≡ true

module _ (sfv : Sfv) where
  pub parse_content_digest-digest :
      (c : ℕ) (h b : Bytes)
      → sfv.unmarshal_dictionary (c ∷ h) ≡ some (digest_dictionary b)
      → length b ≡ 32
      → parse_content_digest sfv (c ∷ h) ≡ ok b
  unfolding parse_content_digest member_of get bytes_eq
  parse_content_digest-digest c h b u l = rw (u, l) refl

  pub parse_signature_bytes-signature :
      (c : ℕ) (h b : Bytes)
      → sfv.unmarshal_dictionary (c ∷ h) ≡ some (signature_dictionary b)
      → parse_signature_bytes sfv (c ∷ h) ≡ ok b
  unfolding parse_signature_bytes member_of get bytes_eq
  parse_signature_bytes-signature c h b u = rw u refl

  abbrev pub signed_input : ℕ → Bytes → SignatureInput
  signed_input created keyid = record {
    list = build_signature_input (pos created) keyid;
    created = pos created;
    keyid = keyid;
  }

  pub parse_signature_input-input :
      (created c : ℕ) (h keyid : Bytes)
      → sfv.unmarshal_dictionary (c ∷ h)
        ≡ some (input_dictionary (build_signature_input (pos created) keyid))
      → parse_signature_input sfv (c ∷ h) ≡ ok (signed_input created keyid)
  unfolding parse_signature_input member_of get bytes_eq build_signature_input
  parse_signature_input-input created c h keyid u = rw u refl

pub check_components-build_signature_input :
    (created : ℤ) (keyid : Bytes) → check_components (build_signature_input created keyid) ≡ true
unfolding check_components covers build_signature_input bytes_eq
check_components-build_signature_input created keyid = refl

pub in_window-created :
    (t now : ℕ)
    → t ≤ now + window
    → now + 1000000000 ≤ t + window
    → in_window now (pos (t / 1000000000)) ≡ true
unfolding in_window
in_window-created t now early late = ground arith

pub equal_fold_refl : (s : Bytes) → equal_fold s s ≡ true
unfolding equal_fold
equal_fold_refl s = bytes_eq_refl _
