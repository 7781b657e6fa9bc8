-- ===== src/Signing/Checks.antt =====
-- What Verify has checked of a request when it returns a result.
use diarion_core.Prelude.{
  ℕ, ◌≡◌, refl, Bool, true, false, not, ◌&&◌, ◌||◌, Option, none, some, arith, ◌==◌, length, Bytes,
  codes, bytes_eq, bytes_eq→eq,
}
use diarion_core.Prelude.Result.{
  Result, ok, err, ◌>>=◌, or_err, bind-eq-ok, check-eq-ok, or_err-eq-ok,
}
use diarion_core.Prelude.Partial.{◌>>=◌ as ◌>>=?◌}
use diarion_core.Stdlib.Hex
use diarion_core.Db.World.{World, Handler, go, bind-eq-go}
use diarion_core.Signing.Message.{
  Sfv, Crypto, get, Request, header_get, components, signature_label, BaseError,
  build_signature_base,
}
use diarion_core.Signing.Verifier.{
  VerifyError, bad_digest, bad_signature, stale_signature, key_not_found, AgentKeyRecord,
  VerifyResult, item_bytes, as_list, str_of, int_of, is_empty, member_of, parse_content_digest,
  SignatureInput, parse_signature_input, parse_signature_bytes, check_components, in_window,
  equal_fold, Prechecked, precheck, base_or_bad, postcheck,
}
use diarion_core.Signing.Fetcher.{fetch_and_check, verify}
use diarion_core.Signing.Signed.{Signed, in_window-InWindow, covers-names}

module _ (sfv : Sfv) (crypto : Crypto) where
  record PrecheckPassed (now : ℕ) (req : Request) (body : Bytes) (pre : Prechecked) : Type 0 where
    want : pre.want_sum ≡ crypto.sha256 body
    digest :
        parse_content_digest sfv (header_get (codes "Content-Digest") req.headers) ≡ ok pre.want_sum
    parsed :
        parse_signature_input sfv (header_get (codes "Signature-Input") req.headers) ≡ ok pre.input
    sig : parse_signature_bytes sfv (header_get (codes "Signature") req.headers) ≡ ok pre.raw_sig
    sig_len : length pre.raw_sig ≡ 64
    covered : check_components pre.input.list ≡ true
    timely : in_window now pre.input.created ≡ true
    same_key : equal_fold (header_get (codes "Diarion-Key-Id") req.headers) pre.input.keyid ≡ true

  and_right : (a b : Bool) → (a && b) ≡ true → b ≡ true
  and_right true b h = h
  and_right false b h = cc

  precheck-passed :
      (now : ℕ) (req : Request) (body : Bytes) (pre : Prechecked)
      → precheck sfv crypto now req body ≡ ok pre
      → PrecheckPassed now req body pre
  unfolding precheck
  precheck-passed now req body pre h =
      let (d, e1, h1) =
        bind-eq-ok (parse_content_digest sfv (header_get (codes "Content-Digest") req.headers)) _
          h in
      let (same, h2) = check-eq-ok (bytes_eq (crypto.sha256 body) d) bad_digest _ h1 in
      let (_, h3) =
        check-eq-ok
          (not (
            is_empty (header_get (codes "Signature-Input") req.headers)
            || is_empty (header_get (codes "Signature") req.headers)))
          bad_signature _ h2 in
      let (inp, e4, h4) =
        bind-eq-ok (parse_signature_input sfv (header_get (codes "Signature-Input") req.headers)) _
          h3 in
      let (sig, e5, h5) =
        bind-eq-ok (parse_signature_bytes sfv (header_get (codes "Signature") req.headers)) _ h4 in
      let (len, h6) = check-eq-ok (length sig == 64) bad_signature _ h5 in
      let (cov, h7) = check-eq-ok (check_components inp.list) bad_signature _ h6 in
      let (win, h8) = check-eq-ok (in_window now inp.created) stale_signature _ h7 in
      let (key, h9) =
        check-eq-ok
          (not (is_empty (header_get (codes "Diarion-Key-Id") req.headers))
            && equal_fold (header_get (codes "Diarion-Key-Id") req.headers) inp.keyid)
          bad_signature _ h8 in
      let sum : crypto.sha256 body ≡ d = bytes_eq→eq _ _ same in
      let made : Prechecked = record {
        want_sum = crypto.sha256 body;
        input = inp;
        raw_sig = sig;
      } in
      let eq : made ≡ pre = cc in
      rw (← eq) (record {
        want = refl;
        digest = rw sum e1;
        parsed = e4;
        sig = e5;
        sig_len = ground arith;
        covered = cov;
        timely = win;
        same_key = and_right _ _ key;
      })

  parse_content_digest_sound :
      (header d : Bytes)
      → parse_content_digest sfv header ≡ ok d
      → (member_of sfv (codes "sha-256") header >>=? item_bytes) ≡ some d
  unfolding parse_content_digest
  parse_content_digest_sound header d h =
      let (_, h1) = check-eq-ok (not (is_empty header)) bad_digest _ h in
      let (bs, e2, h2) =
        bind-eq-ok (or_err (member_of sfv (codes "sha-256") header >>=? item_bytes) bad_digest) _
          h1 in
      let (_, h3) = check-eq-ok (length bs == 32) bad_digest _ h2 in
      let eq : bs ≡ d = cc in rw (← eq) (or_err-eq-ok _ bad_digest e2)

  parse_signature_input_sound :
      (header : Bytes) (i : SignatureInput)
      → parse_signature_input sfv header ≡ ok i
      → ((member_of sfv signature_label header >>=? as_list) ≡ some i.list)
        × ((get (codes "created") i.list.params >>=? int_of) ≡ some i.created)
        × ((get (codes "keyid") i.list.params >>=? str_of) ≡ some i.keyid)
  unfolding parse_signature_input
  parse_signature_input_sound header i h =
      let (l, e1, h1) =
        bind-eq-ok (or_err (member_of sfv signature_label header >>=? as_list) bad_signature) _ h in
      let (t, e2, h2) =
        bind-eq-ok (or_err (get (codes "created") l.params >>=? int_of) bad_signature) _ h1 in
      let (k, e3, h3) =
        bind-eq-ok (or_err (get (codes "keyid") l.params >>=? str_of) bad_signature) _ h2 in
      let made : SignatureInput = record { list = l; created = t; keyid = k } in
      let eq : made ≡ i = cc in
      rw (← eq) (
        or_err-eq-ok _ bad_signature e1,
        or_err-eq-ok _ bad_signature e2,
        or_err-eq-ok _ bad_signature e3,
      )

  base_or_bad-ok : (m : Result BaseError Bytes) (b : Bytes) → base_or_bad m ≡ ok b → m ≡ ok b
  base_or_bad-ok (ok a) b h = cc
  base_or_bad-ok (err e) b h = cc

  postcheck-Signed :
      (now : ℕ) (req : Request) (body : Bytes) (pre : Prechecked) (rec : AgentKeyRecord)
      (r : VerifyResult)
      → PrecheckPassed now req body pre
      → postcheck sfv crypto req pre (some rec) ≡ ok r
      → Signed sfv crypto now req body pre.input.keyid rec r
  unfolding postcheck check_components
  postcheck-Signed now req body pre rec r p h =
      let (same, h1) = check-eq-ok (bytes_eq rec.fingerprint pre.input.keyid) key_not_found _ h in
      let (_, h2) = check-eq-ok (length rec.public_key == 32) bad_signature _ h1 in
      let (base, e3, h3) =
        bind-eq-ok (base_or_bad (build_signature_base sfv req pre.input.list)) _ h2 in
      let (good, h4) =
        check-eq-ok (crypto.ed25519_verify rec.public_key base pre.raw_sig) bad_signature _ h3 in
      let (prev, e5, h5) =
        bind-eq-ok
          (or_err (Hex.decode (header_get (codes "Diarion-Prev-Entry-Hash") req.headers))
            bad_signature)
          _ h4 in
      let (len, h6) = check-eq-ok (length prev == 32) bad_signature _ h5 in
      let made : VerifyResult = record {
        key_fingerprint = rec.fingerprint;
        agent_id = rec.agent_id;
        key_id = rec.key_id;
        signature = pre.raw_sig;
        prev_entry_hash = prev;
        content_digest = pre.want_sum;
      } in
      let eq : made ≡ r = cc in
      let (list_at, created_at, keyid_at) = parse_signature_input_sound _ pre.input p.parsed in
      rw (← eq) (record {
        digest_of_body = p.want;
        digest_header = parse_content_digest_sound _ pre.want_sum p.digest;
        input = pre.input.list;
        input_header = list_at;
        all_components = covers-names pre.input.list.items components p.covered;
        created = pre.input.created;
        created_param = created_at;
        fresh = in_window-InWindow now pre.input.created p.timely;
        keyid_param = keyid_at;
        key_header = p.same_key;
        key_of_record = bytes_eq→eq _ _ same;
        signature_header = unfold parse_signature_bytes in or_err-eq-ok _ bad_signature p.sig;
        signature_len = p.sig_len;
        base = base;
        base_of_request = base_or_bad-ok _ base e3;
        verified = good;
        prev_header = or_err-eq-ok _ bad_signature e5;
        prev_len = ground arith;
        signer = (refl, refl, refl);
      })

  module _ {X : Type 0}
      (fetch : Bytes → Handler X (Result VerifyError (Option AgentKeyRecord))) where
    checked-Signed :
        (now : ℕ) (req : Request) (body : Bytes) (pre : Prechecked)
        (found : Result VerifyError (Option AgentKeyRecord)) (r : VerifyResult)
        → PrecheckPassed now req body pre
        → (found >>= λ rec. postcheck sfv crypto req pre rec) ≡ ok r
        → (rec : AgentKeyRecord) × (found ≡ ok (some rec))
          × Signed sfv crypto now req body pre.input.keyid rec r
    unfolding postcheck
    checked-Signed now req body pre (err e) r p h = cc
    checked-Signed now req body pre (ok none) r p h = cc
    checked-Signed now req body pre (ok (some rec)) r p h =
        (rec, refl, postcheck-Signed now req body pre rec r p h)

    -- When Verify returns a result, the digest header and the result have the hash of the body, the
    -- signed components are exactly the seven of the envelope, the signature is at most five minutes
    -- old or ahead, the fetcher found the key that the signature and the key header name, the
    -- signature in the result verifies under that key over the signature base of this request, and
    -- the previous hash in the result is the 32 bytes of its header.
    pub verify-Signed :
        (now : ℕ) (req : Request) (body : Bytes) (w w' : World) (r : VerifyResult)
        → verify fetch sfv crypto now req body w ≡ (go (ok r), w')
        → (keyid : Bytes) × (rec : AgentKeyRecord) × (fetch keyid w ≡ (go (ok (some rec)), w'))
          × Signed sfv crypto now req body keyid rec r
    unfolding verify
    verify-Signed now req body w w' r h = from_precheck (precheck sfv crypto now req body) refl h
      where
        from_precheck :
            (m : Result VerifyError Prechecked)
            → precheck sfv crypto now req body ≡ m
            → fetch_and_check fetch sfv crypto req m w ≡ (go (ok r), w')
            → (keyid : Bytes) × (rec : AgentKeyRecord) × (fetch keyid w ≡ (go (ok (some rec)), w'))
              × Signed sfv crypto now req body keyid rec r
        from_precheck (err e) at_pre h = cc
        from_precheck (ok pre) at_pre h =
            let (found, w1, e1, h1) = bind-eq-go (fetch pre.input.keyid) _ w h in
            let (rec, e2, signed) =
              checked-Signed now req body pre found r (precheck-passed now req body pre at_pre)
                cc in
            (pre.input.keyid, rec, cc, signed)
