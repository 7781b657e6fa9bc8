-- ===== src/Signing/Toy.antt =====
-- Toy structured fields and toy cryptography for the tests, and a request signed with them.
use diarion_core.Prelude.{
  ℕ, zero, suc, ◌%◌, Option, none, some, [], ◌∷◌, ◌++◌, length, take, drop, replicate, Bytes, codes,
  bytes_eq,
}
use diarion_core.Prelude.Int.{pos}
use diarion_core.Stdlib.Hex
use diarion_core.Signing.Message.{
  Bare, str, bytes, int, other, item, inner, Dictionary, Params, Sfv, Crypto, Request,
}
use diarion_core.Signing.Signer.{build_signature_input, input_dictionary}
use diarion_core.Signing.Verifier.{AgentKeyRecord}

abbrev pub write_item : Bytes → Bare → Option Bytes
write_item name (bytes b) = some (0 ∷ length name ∷ (name ++ b))
write_item name (str s) = none
write_item name (int n) = none
write_item name other = none

abbrev pub write_params : Params → Option Bytes
write_params ((c, int (pos n)) ∷ (k, str s) ∷ ps) = some (1 ∷ n ∷ s)
write_params ps = none

abbrev pub write : Dictionary → Option Bytes
write ((name, item i) ∷ []) = write_item name i.value
write ((name, inner l) ∷ []) = write_params l.params
write d = none

abbrev pub read : Bytes → Option Dictionary
read (zero ∷ n ∷ s) =
    some ((take n s, item (record { value = bytes (drop n s); params = [] })) ∷ [])
read (suc m ∷ n ∷ s) = some (input_dictionary (build_signature_input (pos n) s))
read s = none

abbrev pub toy_sfv : Sfv
toy_sfv = record {
  unmarshal_dictionary = read;
  marshal_dictionary = write;
  marshal_inner_list = λ l. write_params l.params;
}

abbrev pub toy_hash : ℕ → Bytes → Bytes
toy_hash n s = replicate n (length s % 256)

abbrev pub toy_crypto : Crypto
toy_crypto = record {
  sha256 = toy_hash 32;
  ed25519_sign = λ priv msg. toy_hash 64 msg;
  ed25519_verify = λ public_key msg sig. bytes_eq sig (toy_hash 64 msg);
}

abbrev pub one_key : AgentKeyRecord
one_key = record {
  fingerprint = codes "ab12";
  public_key = replicate 32 5;
  agent_id = 4;
  key_id = 9;
}

abbrev pub post : Request
post = record {
  method = codes "post";
  host = codes "diarion.org";
  path = codes "/v1/agents/ada/entries";
  raw_query = [];
  headers = (codes "content-type", codes "application/json") ∷ [];
}

abbrev pub body : Bytes
body = codes "{}"

abbrev pub prev : Bytes
prev = replicate 32 17

abbrev pub second : ℕ
second = 1000000000

abbrev pub signed_post : Request
signed_post = record post {
  headers =
      (codes "content-digest", 0 ∷ 7 ∷ (codes "sha-256" ++ toy_hash 32 body))
      ∷ (codes "diarion-key-id", codes "ab12")
      ∷ (codes "diarion-prev-entry-hash", Hex.encode prev)
      ∷ (codes "signature-input", 1 ∷ 1000 ∷ codes "ab12")
      ∷ (codes "signature", 0 ∷ 4 ∷ (codes "sig1" ++ replicate 64 32))
      ∷ [];
}
