-- ===== src/Signing/RoundTrip.antt =====
-- Verify accepts what SignAt has signed.
use diarion_core.Prelude.{
  ℕ, ◌+◌, ◌/◌, ◌≤◌, ◌<◌, ◌≡◌, ◌≢◌, refl, true, false, Option, some, [], ◌∷◌, arith, All, length,
  Bytes, IsBytes, codes, bytes_eq, bytes_eq_refl,
}
use diarion_core.Prelude.Int.{pos}
use diarion_core.Prelude.Result.{Result, ok}
use diarion_core.Stdlib.Hex
use diarion_core.Db.World.{World, Handler, go}
use diarion_core.Signing.Message.{InnerList, Sfv, Crypto, Request, header_get, build_signature_base}
use diarion_core.Signing.Signer.{
  format_content_digest, build_signature_input, with_digest_headers, with_signature_headers,
  sign_at,
}
use diarion_core.Signing.Verifier.{
  VerifyError, AgentKeyRecord, parse_content_digest, parse_signature_input, parse_signature_bytes,
  window, is_empty, Prechecked, precheck, postcheck,
}
use diarion_core.Signing.Fetcher.{verify}
use diarion_core.Signing.Headers.{
  with_digest_headers-Carries, with_signature_headers-Carries, with_signature_headers-input,
  with_signature_headers-sig, with_signature_headers-SameBase, build_signature_base-ok,
  build_signature_base-same,
}
use diarion_core.Signing.Written.{
  IsPrintable, WritesDictionaries, Signs, parse_content_digest-digest,
  parse_signature_bytes-signature, signed_input, parse_signature_input-input,
  check_components-build_signature_input, in_window-created, equal_fold_refl,
}

-- A request whose headers are those that SignAt writes for `body`, `keyid` and a signature `sig`.
record Reads (sfv : Sfv) (crypto : Crypto) (req : Request) (body : Bytes) (created : ℕ)
    (keyid sig : Bytes) : Type 0 where
  digest :
      parse_content_digest sfv (header_get (codes "Content-Digest") req.headers)
      ≡ ok (crypto.sha256 body)
  has_input : is_empty (header_get (codes "Signature-Input") req.headers) ≡ false
  has_sig : is_empty (header_get (codes "Signature") req.headers) ≡ false
  input :
      parse_signature_input sfv (header_get (codes "Signature-Input") req.headers)
      ≡ ok (signed_input sfv created keyid)
  signature : parse_signature_bytes sfv (header_get (codes "Signature") req.headers) ≡ ok sig
  key : header_get (codes "Diarion-Key-Id") req.headers ≡ keyid

not_empty : (s : Bytes) → s ≢ [] → is_empty s ≡ false
not_empty [] n = absurd (n refl)
not_empty (c ∷ s) n = refl

encode-nonempty : (s : Bytes) → length s ≡ 32 → Hex.encode s ≢ []
unfolding Hex.encode
encode-nonempty [] l = absurd (omega (arith, l))
encode-nonempty (c ∷ s) l = λ e. cc

module _ (sfv : Sfv) (crypto : Crypto) where
  precheck-Reads :
      (req : Request) (body keyid sig : Bytes) (t now : ℕ)
      → Reads sfv crypto req body (t / 1000000000) keyid sig
      → length sig ≡ 64
      → keyid ≢ []
      → t ≤ now + window
      → now + 1000000000 ≤ t + window
      → precheck sfv crypto now req body
        ≡ ok (record {
          want_sum = crypto.sha256 body;
          input = signed_input sfv (t / 1000000000) keyid;
          raw_sig = sig;
        })
  unfolding precheck
  precheck-Reads req body keyid sig t now r len n early late =
      rw
        (
          r.digest,
          bytes_eq_refl (crypto.sha256 body),
          r.has_input,
          r.has_sig,
          r.input,
          r.signature,
          len,
          check_components-build_signature_input (pos (t / 1000000000)) keyid,
          in_window-created t now early late,
          r.key,
          not_empty keyid n,
          equal_fold_refl keyid,
        )
        refl

  postcheck-signed :
      (req : Request) (prev base : Bytes) (pre : Prechecked) (rec : AgentKeyRecord)
      → rec.fingerprint ≡ pre.input.keyid
      → length rec.public_key ≡ 32
      → build_signature_base sfv req pre.input.list ≡ ok base
      → crypto.ed25519_verify rec.public_key base pre.raw_sig ≡ true
      → header_get (codes "Diarion-Prev-Entry-Hash") req.headers ≡ Hex.encode prev
      → IsBytes prev
      → length prev ≡ 32
      → postcheck sfv crypto req pre (some rec)
        ≡ ok (record {
          key_fingerprint = rec.fingerprint;
          agent_id = rec.agent_id;
          key_id = rec.key_id;
          signature = pre.raw_sig;
          prev_entry_hash = prev;
          content_digest = pre.want_sum;
        })
  unfolding postcheck
  postcheck-signed req prev base pre rec same len at_base good at_prev hb len_prev =
      let fp_eq : bytes_eq rec.fingerprint pre.input.keyid ≡ true = rw same (bytes_eq_refl _) in
      rw (fp_eq, len, at_base, good, at_prev, Hex.decode-encode prev hb, len_prev) refl

  -- What SignAt gives: a request whose headers read as above, and whose signature is over its base.
  record SignedRequest (req : Request) (body keyid priv prev : Bytes) (t : ℕ) : Type 0 where
    signed : Request
    base : Bytes
    written : sign_at sfv crypto req body keyid priv prev t ≡ ok signed
    reads : Reads sfv crypto signed body (t / 1000000000) keyid (crypto.ed25519_sign priv base)
    at_prev : header_get (codes "Diarion-Prev-Entry-Hash") signed.headers ≡ Hex.encode prev
    at_base :
        build_signature_base sfv signed (build_signature_input (pos (t / 1000000000)) keyid)
        ≡ ok base

  sign_at-SignedRequest :
      (req : Request) (body keyid priv public_key prev : Bytes) (t : ℕ)
      → WritesDictionaries sfv
      → Signs crypto priv public_key
      → length priv ≡ 64
      → length prev ≡ 32
      → keyid ≢ []
      → All IsPrintable keyid
      → t / 1000000000 < 1000000000000000
      → SignedRequest req body keyid priv prev t
  unfolding sign_at format_content_digest
  sign_at-SignedRequest req body keyid priv public_key prev t writes signs len_priv len_prev n
        printable small =
      let (cd, hd, write_d, read_d) =
        writes.digest (crypto.sha256 body) (signs.sha256-IsBytes body) in
      let (ci, hi, params, write_i, read_i, write_p) =
        writes.inner_list (t / 1000000000) keyid small printable in
      let req1 : Request = with_digest_headers req (cd ∷ hd) keyid prev in
      let carries1 = with_digest_headers-Carries req (cd ∷ hd) keyid prev in
      let list : InnerList = build_signature_input (pos (t / 1000000000)) keyid in
      let (b, at_b) =
        build_signature_base-ok sfv req1 (cd ∷ hd) keyid prev params list carries1 (λ e. cc) n
          (encode-nonempty prev len_prev) write_p in
      let sig : Bytes = crypto.ed25519_sign priv b in
      let (cs, hs, write_s, read_s) = writes.signature sig (signs.sign-IsBytes b) in
      let out : Request = with_signature_headers req1 (ci ∷ hi) (cs ∷ hs) in
      let carries =
        with_signature_headers-Carries req1 (cd ∷ hd) keyid prev (ci ∷ hi) (cs ∷ hs) carries1 in
      record {
        signed = out;
        base = b;
        written = rw (len_priv, len_prev, not_empty keyid n, write_d, write_i, at_b, write_s) refl;
        reads = record {
          digest = rw carries.digest_is (
              parse_content_digest-digest sfv cd hd (crypto.sha256 body) read_d
                (signs.length-sha256 body));
          has_input = rw (with_signature_headers-input req1 (ci ∷ hi) (cs ∷ hs)) refl;
          has_sig = rw (with_signature_headers-sig req1 (ci ∷ hi) (cs ∷ hs)) refl;
          input =
              rw (with_signature_headers-input req1 (ci ∷ hi) (cs ∷ hs))
                (parse_signature_input-input sfv (t / 1000000000) ci hi keyid read_i);
          signature =
              rw (with_signature_headers-sig req1 (ci ∷ hi) (cs ∷ hs))
                (parse_signature_bytes-signature sfv cs hs sig read_s);
          key = carries.key_is;
        };
        at_prev = carries.prev_is;
        at_base =
            rw
              (build_signature_base-same sfv req1 out list
                (with_signature_headers-SameBase req1 (ci ∷ hi) (cs ∷ hs)))
              at_b;
      }

  -- A request that SignAt signs (64-byte private key, 32-byte previous hash, a key id that is not
  -- empty) is accepted by Verify when the fetcher has the public key of the private one under the
  -- key id, from five minutes before the signing time to one second less than five minutes after it.
  -- The result names the key, holds the previous hash and the hash of the body, and its signature is
  -- the one of ed25519 under the private key.
  pub verify-sign_at :
      {X : Type 0} (fetch : Bytes → Handler X (Result VerifyError (Option AgentKeyRecord)))
      (req : Request) (body keyid priv prev : Bytes) (t now : ℕ) (rec : AgentKeyRecord)
      (w w' : World)
      → WritesDictionaries sfv
      → Signs crypto priv rec.public_key
      → length priv ≡ 64
      → length prev ≡ 32
      → IsBytes prev
      → keyid ≢ []
      → All IsPrintable keyid
      → t / 1000000000 < 1000000000000000
      → t ≤ now + window
      → now + 1000000000 ≤ t + window
      → fetch keyid w ≡ (go (ok (some rec)), w')
      → rec.fingerprint ≡ keyid
      → length rec.public_key ≡ 32
      → (signed : Request) × (base : Bytes) × (sign_at sfv crypto req body keyid priv prev t
          ≡ ok signed)
        × (verify fetch sfv crypto now signed body w ≡ (
          go (
              ok (record {
                key_fingerprint = keyid;
                agent_id = rec.agent_id;
                key_id = rec.key_id;
                signature = crypto.ed25519_sign priv base;
                prev_entry_hash = prev;
                content_digest = crypto.sha256 body;
              })),
          w',
        ))
  unfolding verify
  verify-sign_at fetch req body keyid priv prev t now rec w w' writes signs len_priv len_prev hb n
        printable small early late found same len =
      let s =
        sign_at-SignedRequest req body keyid priv rec.public_key prev t writes signs len_priv
          len_prev n printable small in
      let sig : Bytes = crypto.ed25519_sign priv s.base in
      let pre : Prechecked = record {
        want_sum = crypto.sha256 body;
        input = signed_input sfv (t / 1000000000) keyid;
        raw_sig = sig;
      } in
      (
        s.signed,
        s.base,
        s.written,
        rw
            (
              precheck-Reads s.signed body keyid sig t now s.reads (signs.length-sign s.base) n
                  early late,
              found,
              postcheck-signed s.signed prev s.base pre rec same len s.at_base
                  (signs.verify-sign s.base) s.at_prev hb len_prev,
              same,
            )
            refl,
      )
