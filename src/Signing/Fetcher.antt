-- ===== src/Signing/Fetcher.antt =====
-- internal/signing/dbkeyfetcher.go, and Verify of verifier.go over a key fetcher.
use diarion_core.Prelude.{ℕ, Bool, true, false, Option, some, ◌==◌, if◌then◌else◌, length, Bytes}
use diarion_core.Prelude.Result.{Result, ok, err, ◌>>=◌}
use diarion_core.Db.Models.{AgentKey}
use diarion_core.Db.World.{DbError, no_rows, Handler, call, pure, ◌>>=◌ as ◌>>=!◌}
use diarion_core.Db.Keys.{get_agent_key_by_fingerprint, is_active}
use diarion_core.Signing.Message.{Sfv, Crypto, Request}
use diarion_core.Signing.Verifier.{
  VerifyError, key_not_found, key_revoked, key_fetch, AgentKeyRecord, VerifyResult, Prechecked,
  precheck, postcheck,
}

unfoldable pub is_no_rows : DbError → Bool
is_no_rows no_rows = true
is_no_rows e = false

abbrev pub key_record : AgentKey → AgentKeyRecord
key_record row = record {
  fingerprint = row.fingerprint;
  public_key = row.public_key;
  agent_id = row.agent_id;
  key_id = row.id;
}

-- The checks behind the query of DBKeyFetcher.Fetch.
unfoldable pub fetched : Result DbError AgentKey → Result VerifyError (Option AgentKeyRecord)
unfolding is_no_rows
fetched (err e) = if is_no_rows e then err key_not_found else err key_fetch
fetched (ok row) =
    if is_active row.status
    then (if length row.public_key == 32 then ok (some (key_record row)) else err key_fetch)
    else err key_revoked

module _ {X : Type 0} where
  abbrev pub db_fetch : Bytes → Handler X (Result VerifyError (Option AgentKeyRecord))
  db_fetch fingerprint = call (get_agent_key_by_fingerprint fingerprint) >>=! λ r. pure (fetched r)

  abbrev pub fetch_and_check :
      (Bytes → Handler X (Result VerifyError (Option AgentKeyRecord)))
      → Sfv
      → Crypto
      → Request
      → Result VerifyError Prechecked
      → Handler X (Result VerifyError VerifyResult)
  fetch_and_check fetch sfv crypto req (err e) = pure (err e)
  fetch_and_check fetch sfv crypto req (ok pre) =
      fetch pre.input.keyid >>=! λ found. pure (found >>= λ rec. postcheck sfv crypto req pre rec)

  -- Verify, its clock at `now` nanoseconds.
  unfoldable pub verify :
      (Bytes → Handler X (Result VerifyError (Option AgentKeyRecord)))
      → Sfv
      → Crypto
      → ℕ
      → Request
      → Bytes
      → Handler X (Result VerifyError VerifyResult)
  verify fetch sfv crypto now req body =
      fetch_and_check fetch sfv crypto req (precheck sfv crypto now req body)
