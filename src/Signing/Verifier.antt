-- ===== src/Signing/Verifier.antt =====
-- internal/signing/verifier.go. Fetching the key is the one step with an effect, so `Verify` is a
-- `precheck`, the fetch, and a `postcheck`. `created` is an RFC 8941 integer, of fifteen digits at
-- most, so `time.Unix` does not overflow. A key id is an RFC 8941 string, which is ASCII:
-- `equal_fold` has the two letters outside ASCII that fold to one of it.
use diarion_core.Prelude.{
  ℕ, ◌+◌, ◌*◌, Bool, true, false, not, ◌&&◌, ◌||◌, Option, none, some, List, [], ◌∷◌, leb, ◌==◌,
  if◌then◌else◌, length, Bytes, codes, bytes_eq,
}
use diarion_core.Prelude.Int.{ℤ, pos, negsuc}
use diarion_core.Prelude.Result.{Result, ok, err, ◌>>=◌, ◌>>◌, check, or_err}
use diarion_core.Prelude.Partial.{◌>>=◌ as ◌>>=?◌}
use diarion_core.Stdlib.Hex
use diarion_core.Stdlib.Strings.{to_lower}
use diarion_core.Signing.Message.{
  Bare, str, bytes, int, other, Item, InnerList, Member, item, inner, Sfv, Crypto, get, Request,
  header_get, components, signature_label, BaseError, build_signature_base,
}

-- The sentinel errors; `key_fetch` is any other failure of the key fetcher.
pub data VerifyError : Type 0 where
  bad_digest bad_signature stale_signature key_not_found key_revoked key_fetch : VerifyError

pub record AgentKeyRecord : Type 0 where
  pub fingerprint : Bytes
  pub public_key : Bytes
  pub agent_id : ℕ
  pub key_id : ℕ

pub record VerifyResult : Type 0 where
  pub key_fingerprint : Bytes
  pub agent_id : ℕ
  pub key_id : ℕ
  pub signature : Bytes
  pub prev_entry_hash : Bytes
  pub content_digest : Bytes

abbrev pub bytes_of : Bare → Option Bytes
bytes_of (bytes b) = some b
bytes_of (str s) = none
bytes_of (int n) = none
bytes_of other = none

abbrev pub str_of : Bare → Option Bytes
str_of (str s) = some s
str_of (bytes b) = none
str_of (int n) = none
str_of other = none

abbrev pub int_of : Bare → Option ℤ
int_of (int n) = some n
int_of (str s) = none
int_of (bytes b) = none
int_of other = none

abbrev pub item_bytes : Member → Option Bytes
item_bytes (item i) = bytes_of i.value
item_bytes (inner l) = none

abbrev pub as_list : Member → Option InnerList
as_list (inner l) = some l
as_list (item i) = none

abbrev pub is_empty : Bytes → Bool
is_empty [] = true
is_empty (c ∷ s) = false

-- The named member of a dictionary header.
unfoldable pub member_of : Sfv → Bytes → Bytes → Option Member
member_of sfv name header = sfv.unmarshal_dictionary header >>=? (λ d. get name d)

unfoldable pub parse_content_digest : Sfv → Bytes → Result VerifyError Bytes
parse_content_digest sfv header = do
  check (not (is_empty header)) bad_digest
  bs ← or_err (member_of sfv (codes "sha-256") header >>=? item_bytes) bad_digest
  check (length bs == 32) bad_digest
  ok bs

pub record SignatureInput : Type 0 where
  pub list : InnerList
  pub created : ℤ
  pub keyid : Bytes

unfoldable pub parse_signature_input : Sfv → Bytes → Result VerifyError SignatureInput
parse_signature_input sfv header = do
  l ← or_err (member_of sfv signature_label header >>=? as_list) bad_signature
  t ← or_err (get (codes "created") l.params >>=? int_of) bad_signature
  k ← or_err (get (codes "keyid") l.params >>=? str_of) bad_signature
  ok (record { list = l; created = t; keyid = k })

unfoldable pub parse_signature_bytes : Sfv → Bytes → Result VerifyError Bytes
parse_signature_bytes sfv header =
    or_err (member_of sfv signature_label header >>=? item_bytes) bad_signature

abbrev pub is_name : Bytes → Option Bytes → Bool
is_name want none = false
is_name want (some got) = bytes_eq got want

unfoldable pub covers : List Item → List Bytes → Bool
covers [] [] = true
covers [] (want ∷ names) = false
covers (i ∷ items) [] = false
covers (i ∷ items) (want ∷ names) = is_name want (str_of i.value) && covers items names

unfoldable pub check_components : InnerList → Bool
check_components l = covers l.items components

-- Window, in nanoseconds.
abbrev pub window : ℕ
window = 300 * 1000000000

-- Neither `delta > Window` nor `delta < -Window`, at nanosecond `now` and second `created`.
unfoldable pub in_window : ℕ → ℤ → Bool
in_window now (pos s) = leb now (s * 1000000000 + window) && leb (s * 1000000000) (now + window)
in_window now (negsuc n) = leb (now + (n + 1) * 1000000000) window

-- A byte before what its successors fold to: U+212A is a K, U+017F an s.
abbrev fold_with : ℕ → Bytes → Bytes
fold_with c [] = c ∷ []
fold_with c (d ∷ []) = if c == 197 && d == 191 then b's' ∷ [] else c ∷ d ∷ []
fold_with c (d ∷ e ∷ s) =
    if c == 197 && d == 191
    then b's' ∷ e ∷ s
    else if c == 226 && d == 132 && e == 170
    then b'k' ∷ s
    else c ∷ d ∷ e ∷ s

unfoldable pub fold_ascii : Bytes → Bytes
fold_ascii [] = []
fold_ascii (c ∷ s) = fold_with c (fold_ascii s)

-- strings.EqualFold.
unfoldable pub equal_fold : Bytes → Bytes → Bool
equal_fold s t = bytes_eq (to_lower (fold_ascii s)) (to_lower (fold_ascii t))

-- What is known of the request when the key is fetched.
pub record Prechecked : Type 0 where
  pub want_sum : Bytes
  pub input : SignatureInput
  pub raw_sig : Bytes

unfoldable pub precheck : Sfv → Crypto → ℕ → Request → Bytes → Result VerifyError Prechecked
precheck sfv crypto now req body = do
  let sum = crypto.sha256 body
  digest ← parse_content_digest sfv (header_get (codes "Content-Digest") req.headers)
  check (bytes_eq sum digest) bad_digest
  let input_header = header_get (codes "Signature-Input") req.headers
  let sig_header = header_get (codes "Signature") req.headers
  check (not (is_empty input_header || is_empty sig_header)) bad_signature
  sig_input ← parse_signature_input sfv input_header
  sig ← parse_signature_bytes sfv sig_header
  check (length sig == 64) bad_signature
  check (check_components sig_input.list) bad_signature
  check (in_window now sig_input.created) stale_signature
  let header_key = header_get (codes "Diarion-Key-Id") req.headers
  check (not (is_empty header_key) && equal_fold header_key sig_input.keyid) bad_signature
  ok (record { want_sum = sum; input = sig_input; raw_sig = sig })

abbrev pub base_or_bad : Result BaseError Bytes → Result VerifyError Bytes
base_or_bad (ok b) = ok b
base_or_bad (err e) = err bad_signature

-- The checks behind the fetch, which returned `found`.
unfoldable pub postcheck :
    Sfv → Crypto → Request → Prechecked → Option AgentKeyRecord → Result VerifyError VerifyResult
postcheck sfv crypto req pre found = do
  rec ← or_err found key_not_found
  check (bytes_eq rec.fingerprint pre.input.keyid) key_not_found
  check (length rec.public_key == 32) bad_signature
  base ← base_or_bad (build_signature_base sfv req pre.input.list)
  check (crypto.ed25519_verify rec.public_key base pre.raw_sig) bad_signature
  prev ←
      or_err (Hex.decode (header_get (codes "Diarion-Prev-Entry-Hash") req.headers)) bad_signature
  check (length prev == 32) bad_signature
  ok (record {
    key_fingerprint = rec.fingerprint;
    agent_id = rec.agent_id;
    key_id = rec.key_id;
    signature = pre.raw_sig;
    prev_entry_hash = prev;
    content_digest = pre.want_sum;
  })
