-- ===== src/Signing/Tests.antt =====
-- A request signed and verified with toy structured fields and toy cryptography.
use diarion_core.Prelude.{
  ℕ, zero, suc, ◌*◌, ◌%◌, ◌<◌, ◌≡◌, refl, Option, some, arith, length, replicate, Bytes, IsBytes,
  codes, bytes_eq, bytes_eq_refl,
}
use diarion_core.Prelude.Result.{Result, ok}
use diarion_core.Db.Models.{empty_db}
use diarion_core.Db.World.{World, Handler, go, pure, quiet}
use diarion_core.Stdlib.Hex
use diarion_core.Stdlib.Strings.{to_lower, to_lower_byte}
use diarion_core.Signing.Message.{
  Request, get, header_get, build_signature_base, base_lines, component_value, to_upper,
}
use diarion_core.Signing.Signer.{build_signature_input, sign_at}
use diarion_core.Signing.Verifier.{
  VerifyError, AgentKeyRecord, VerifyResult, precheck, postcheck, parse_content_digest,
  parse_signature_input, parse_signature_bytes, member_of, check_components, covers, in_window,
  equal_fold, fold_ascii,
}
use diarion_core.Signing.Fetcher.{verify}
use diarion_core.Signing.Toy.{
  toy_sfv, toy_hash, toy_crypto, one_key, post, body, prev, second, signed_post,
}
use diarion_core.Signing.Written.{WritesDictionaries, Signs}
use diarion_core.Signing.RoundTrip.{verify-sign_at}
use diarion_core.Signing.Signed.{Signed}
use diarion_core.Signing.Checks.{verify-Signed}

toy-WritesDictionaries : WritesDictionaries toy_sfv
unfolding build_signature_input
toy-WritesDictionaries = record {
  digest = λ b h. (_, _, refl, refl);
  signature = λ b h. (_, _, refl, refl);
  inner_list = λ created keyid small printable. (_, _, _, refl, refl, refl);
}

length-replicate : (n b : ℕ) → length (replicate n b) ≡ n
length-replicate zero b = refl
length-replicate (suc n) b = rw (length-replicate n b) refl

replicate-IsBytes : (n b : ℕ) → b < 256 → IsBytes (replicate n b)
replicate-IsBytes zero b h = tt
replicate-IsBytes (suc n) b h = (h, replicate-IsBytes n b h)

toy-Signs : (priv public_key : Bytes) → Signs toy_crypto priv public_key
toy-Signs priv public_key = record {
  length-sha256 = λ s. length-replicate 32 (length s % 256);
  sha256-IsBytes = λ s. replicate-IsBytes 32 (length s % 256) (omega arith);
  length-sign = λ msg. length-replicate 64 (length msg % 256);
  sign-IsBytes = λ msg. replicate-IsBytes 64 (length msg % 256) (omega arith);
  verify-sign = λ msg. bytes_eq_refl (toy_hash 64 msg);
}

abbrev fetch_one : Bytes → Handler ℕ (Result VerifyError (Option AgentKeyRecord))
fetch_one k = pure (ok (some one_key))

abbrev no_db : World
no_db = quiet 0 empty_db

verify-sign_at_example :
    (signed : Request) × (base : Bytes) × (sign_at toy_sfv toy_crypto post body
        (codes "ab12")
        (replicate 64 1)
        prev
        (1000 * second)
      ≡ ok signed)
    × (verify fetch_one toy_sfv toy_crypto (1100 * second) signed body no_db ≡ (
      go (
          ok (record {
            key_fingerprint = codes "ab12";
            agent_id = 4;
            key_id = 9;
            signature = toy_hash 64 base;
            prev_entry_hash = prev;
            content_digest = toy_hash 32 body;
          })),
      no_db,
    ))
verify-sign_at_example =
    verify-sign_at toy_sfv toy_crypto fetch_one post body (codes "ab12") (replicate 64 1) prev
      (1000 * second) (1100 * second) one_key no_db no_db toy-WritesDictionaries
      (toy-Signs (replicate 64 1) (replicate 32 5)) refl refl
      (replicate-IsBytes 32 17 (omega arith)) (λ e. cc) (ground arith) (omega arith) (omega arith)
      (omega arith) refl refl refl

abbrev verified : VerifyResult
verified = record {
  key_fingerprint = codes "ab12";
  agent_id = 4;
  key_id = 9;
  signature = replicate 64 32;
  prev_entry_hash = prev;
  content_digest = toy_hash 32 body;
}

signed_post_verified :
    verify fetch_one toy_sfv toy_crypto (1100 * second) signed_post body no_db
    ≡ (go (ok verified), no_db)
unfolding verify precheck postcheck parse_content_digest parse_signature_input parse_signature_bytes
    member_of get header_get check_components covers in_window equal_fold fold_ascii
    build_signature_base base_lines component_value build_signature_input bytes_eq to_lower
    to_lower_byte to_upper Hex.encode Hex.decode Hex.hex_digit Hex.from_hex_digit
signed_post_verified = refl

verify-Signed_example :
    (keyid : Bytes) × (rec : AgentKeyRecord) × (fetch_one keyid no_db ≡ (go (ok (some rec)), no_db))
    × Signed toy_sfv toy_crypto (1100 * second) signed_post body keyid rec verified
verify-Signed_example =
    verify-Signed toy_sfv toy_crypto fetch_one (1100 * second) signed_post body no_db no_db verified
      signed_post_verified
