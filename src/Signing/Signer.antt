-- ===== src/Signing/Signer.antt =====
-- internal/signing/signer.go: SignAt. The request comes back with its new headers; its body is the
-- argument, as SignAt resets it to.
use diarion_core.Prelude.{
  ℕ, ◌/◌, Bool, true, false, not, Option, [], ◌∷◌, ◌==◌, length, map, Bytes, codes,
}
use diarion_core.Prelude.Int.{ℤ, pos}
use diarion_core.Prelude.Result.{Result, ok, err, ◌>>=◌, ◌>>◌, check, or_err}
use diarion_core.Stdlib.Hex
use diarion_core.Signing.Message.{
  Bare, str, bytes, int, Item, InnerList, item, inner, Dictionary, Sfv, Crypto, Request, header_set,
  components, signature_label, BaseError, build_signature_base,
}

pub data SignError : Type 0 where
  private_key_len prev_hash_len empty_fingerprint format_failed : SignError
  base_failed : BaseError → SignError

abbrev map_base {ℓ} : {A : Type ℓ} → Result BaseError A → Result SignError A
map_base (ok a) = ok a
map_base (err e) = err (base_failed e)

abbrev plain_item : Bare → Item
plain_item v = record { value = v; params = [] }

abbrev pub digest_dictionary : Bytes → Dictionary
digest_dictionary digest = (codes "sha-256", item (plain_item (bytes digest))) ∷ []

unfoldable pub format_content_digest : Sfv → Bytes → Option Bytes
format_content_digest sfv digest = sfv.marshal_dictionary (digest_dictionary digest)

unfoldable pub build_signature_input : ℤ → Bytes → InnerList
build_signature_input created fingerprint = record {
  items = map (λ name. plain_item (str name)) components;
  params =
      (codes "created", int created)
      ∷ (codes "keyid", str fingerprint)
      ∷ (codes "alg", str (codes "ed25519"))
      ∷ [];
}

abbrev pub input_dictionary : InnerList → Dictionary
input_dictionary l = (signature_label, inner l) ∷ []

abbrev pub signature_dictionary : Bytes → Dictionary
signature_dictionary sig = (signature_label, item (plain_item (bytes sig))) ∷ []

abbrev is_empty : Bytes → Bool
is_empty [] = true
is_empty (c ∷ s) = false

-- The headers that are set before the base is built.
abbrev pub with_digest_headers : Request → Bytes → Bytes → Bytes → Request
with_digest_headers req digest_header fingerprint prev_entry_hash = record req {
  headers = header_set (codes "Diarion-Prev-Entry-Hash") (Hex.encode prev_entry_hash) (
      header_set (codes "Diarion-Key-Id") fingerprint
        (header_set (codes "Content-Digest") digest_header req.headers));
}

abbrev pub with_signature_headers : Request → Bytes → Bytes → Request
with_signature_headers req input_header sig_header = record req {
  headers =
      header_set (codes "Signature") sig_header
        (header_set (codes "Signature-Input") input_header req.headers);
}

-- A time is a number of nanoseconds since 1970; `created` is its Unix second.
unfoldable pub sign_at :
    Sfv → Crypto → Request → Bytes → Bytes → Bytes → Bytes → ℕ → Result SignError Request
sign_at sfv crypto req body fingerprint priv prev_entry_hash t = do
  check (length priv == 64) private_key_len
  check (length prev_entry_hash == 32) prev_hash_len
  check (not (is_empty fingerprint)) empty_fingerprint
  digest_header ← or_err (format_content_digest sfv (crypto.sha256 body)) format_failed
  let req1 = with_digest_headers req digest_header fingerprint prev_entry_hash
  let inner_list = build_signature_input (pos (t / 1000000000)) fingerprint
  sig_input_header ← or_err (sfv.marshal_dictionary (input_dictionary inner_list)) format_failed
  base ← map_base (build_signature_base sfv req1 inner_list)
  let sig = crypto.ed25519_sign priv base
  sig_header ← or_err (sfv.marshal_dictionary (signature_dictionary sig)) format_failed
  ok (with_signature_headers req1 sig_input_header sig_header)
