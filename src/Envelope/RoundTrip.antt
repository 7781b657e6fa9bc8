-- ===== src/Envelope/RoundTrip.antt =====
-- Unwrapping what was wrapped, the size of an envelope, and what a successful unwrap has checked.
use diarion_core.Prelude.{
  ◌+◌, ◌≤◌, ◌≡◌, true, some, [], ◌∷◌, ◌++◌, arith, leb, le→leb, leb→le, ◌==◌, length, length-append,
  length-take, length-drop, take, drop, take-append_at, take-append-drop, drop-append_at, Bytes,
}
use diarion_core.Prelude.Result.{ok, or_err, bind-eq-ok, check-eq-ok, or_err-eq-ok}
use diarion_core.Envelope.{
  Aead, bad_key, master_key_len, version, new_gcm, wrap, unwrap, format, tampered,
  starts_with_version, min_len,
}

new_gcm_32 : (key : Bytes) → length key ≡ 32 → new_gcm key ≡ some key
unfolding new_gcm
new_gcm_32 key h = rw h

module _ (aead : Aead) where
  -- The bytes of an envelope.
  pub layout : Bytes → Bytes → Bytes → Bytes → Bytes → Bytes
  layout master dek kek_nonce dek_nonce plain =
      version
      ∷ (kek_nonce
          ++ (aead.seal master kek_nonce dek ++ (dek_nonce ++ aead.seal dek dek_nonce plain)))

  wrap-eq-layout :
      (master dek kek_nonce dek_nonce plain : Bytes)
      → length master ≡ 32
      → length dek ≡ 32
      → wrap aead master plain (some dek) (some kek_nonce) (some dek_nonce)
        ≡ ok (layout master dek kek_nonce dek_nonce plain)
  unfolding wrap layout
  wrap-eq-layout master dek kek_nonce dek_nonce plain hm hd =
      rw (hm, new_gcm_32 master hm, new_gcm_32 dek hd)

  length-layout :
      (master dek kek_nonce dek_nonce plain : Bytes)
      → length dek ≡ 32
      → length kek_nonce ≡ 12
      → length dek_nonce ≡ 12
      → length (layout master dek kek_nonce dek_nonce plain) ≡ length plain + 89
  unfolding layout
  length-layout master dek kek_nonce dek_nonce plain hd hk hn = omega (
    arith,
    length-append kek_nonce
        (aead.seal master kek_nonce dek ++ (dek_nonce ++ aead.seal dek dek_nonce plain)),
    length-append (aead.seal master kek_nonce dek) (dek_nonce ++ aead.seal dek dek_nonce plain),
    length-append dek_nonce (aead.seal dek dek_nonce plain),
    aead.length-seal master kek_nonce dek,
    aead.length-seal dek dek_nonce plain,
  )

  unwrap-layout :
      (master dek kek_nonce dek_nonce plain : Bytes)
      → length master ≡ 32
      → length dek ≡ 32
      → length kek_nonce ≡ 12
      → length dek_nonce ≡ 12
      → unwrap aead master (layout master dek kek_nonce dek_nonce plain) ≡ ok plain
  unfolding unwrap
  unwrap-layout master dek kek_nonce dek_nonce plain hm hd hk hn =
      let payload : Bytes = aead.seal dek dek_nonce plain in
      let wrapped : Bytes = aead.seal master kek_nonce dek in
      let long : leb min_len (length (layout master dek kek_nonce dek_nonce plain)) ≡ true =
        le→leb min_len _
          (omega (arith, length-layout master dek kek_nonce dek_nonce plain hd hk hn)) in
      let sealed : length wrapped ≡ 48 = omega (arith, aead.length-seal master kek_nonce dek) in
      rw (hm, long)
        (unfold layout in
          rw (
            take-append_at 12 kek_nonce (wrapped ++ (dek_nonce ++ payload)) hk,
            drop-append_at 12 kek_nonce (wrapped ++ (dek_nonce ++ payload)) hk,
            take-append_at 48 wrapped (dek_nonce ++ payload) sealed,
            drop-append_at 48 wrapped (dek_nonce ++ payload) sealed,
            take-append_at 12 dek_nonce payload hn,
            drop-append_at 12 dek_nonce payload hn,
            new_gcm_32 master hm,
            aead.unseal-seal master kek_nonce dek,
            new_gcm_32 dek hd,
            aead.unseal-seal dek dek_nonce plain,
          ))

  -- With a 32-byte master key and random reads of the sizes asked for, Wrap succeeds; its envelope
  -- is 89 bytes longer than the payload, and Unwrap with the same master key gives the payload back.
  pub unwrap-wrap :
      (master dek kek_nonce dek_nonce plain : Bytes)
      → length master ≡ 32
      → length dek ≡ 32
      → length kek_nonce ≡ 12
      → length dek_nonce ≡ 12
      → (env : Bytes) × (wrap aead master plain (some dek) (some kek_nonce) (some dek_nonce)
          ≡ ok env)
        × (length env ≡ length plain + 89)
        × (unwrap aead master env ≡ ok plain)
  unwrap-wrap master dek kek_nonce dek_nonce plain hm hd hk hn = (
    layout master dek kek_nonce dek_nonce plain,
    wrap-eq-layout master dek kek_nonce dek_nonce plain hm hd,
    length-layout master dek kek_nonce dek_nonce plain hd hk hn,
    unwrap-layout master dek kek_nonce dek_nonce plain hm hd hk hn,
  )

  -- What Unwrap has checked when it succeeds.
  pub record Opened (master env plain : Bytes) : Type 0 where
    pub kek_nonce : Bytes
    pub wrapped : Bytes
    pub dek_nonce : Bytes
    pub payload : Bytes
    pub dek : Bytes
    pub split : env ≡ version ∷ (kek_nonce ++ (wrapped ++ (dek_nonce ++ payload)))
    pub sizes :
        (length kek_nonce ≡ 12)
        × (length wrapped ≡ 48)
        × (length dek_nonce ≡ 12)
        × (length env ≡ length payload + 73)
    pub long : 89 ≤ length env
    pub key_opened : aead.unseal master kek_nonce wrapped ≡ some dek
    pub payload_opened : aead.unseal dek dek_nonce payload ≡ some plain

  new_gcm-eq : (key k : Bytes) → new_gcm key ≡ some k → k ≡ key
  unfolding new_gcm
  new_gcm-eq key k h = ground arith

  split_env :
      (env : Bytes)
      → starts_with_version env ≡ true
      → env
        ≡ version
          ∷ (take 12 (drop 1 env)
              ++ (take 48 (drop 12 (drop 1 env))
                  ++ (take 12 (drop 48 (drop 12 (drop 1 env)))
                      ++ drop 12 (drop 48 (drop 12 (drop 1 env))))))
  split_env [] h = cc
  split_env (v ∷ s) h =
      rw
        (
          take-append-drop 12 (drop 48 (drop 12 s)),
          take-append-drop 48 (drop 12 s),
          take-append-drop 12 s,
        )
        (ground arith)

  part_sizes :
      (env : Bytes)
      → starts_with_version env ≡ true
      → 89 ≤ length env
      → (length (take 12 (drop 1 env)) ≡ 12)
        × (length (take 48 (drop 12 (drop 1 env))) ≡ 48)
        × (length (take 12 (drop 48 (drop 12 (drop 1 env)))) ≡ 12)
        × (length env ≡ length (drop 12 (drop 48 (drop 12 (drop 1 env)))) + 73)
  part_sizes [] tag long = omega (arith, long)
  part_sizes (v ∷ s) tag long =
      let d1 = length-drop 12 s in
      let d2 = length-drop 48 (drop 12 s) in
      let d3 = length-drop 12 (drop 48 (drop 12 s)) in
      (
        omega (arith, long, length-take 12 s),
        omega (arith, long, d1, length-take 48 (drop 12 s)),
        omega (arith, long, d1, d2, length-take 12 (drop 48 (drop 12 s))),
        omega (arith, long, d1, d2, d3),
      )

  -- Unwrap succeeds only on the version byte, a 12-byte nonce, a 48-byte wrapped key, a 12-byte nonce
  -- and a payload, of 89 bytes or more in all, whose two parts open, the first under the master key
  -- and the second under the key that the first holds.
  pub unwrap-Opened :
      (master env plain : Bytes) → unwrap aead master env ≡ ok plain → Opened master env plain
  unfolding unwrap
  unwrap-Opened master env plain h =
      let (_, h0) = check-eq-ok (length master == 32) master_key_len _ h in
      let (long, h1) = check-eq-ok (leb min_len (length env)) format _ h0 in
      let (tag, h2) = check-eq-ok (starts_with_version env) format _ h1 in
      let (kek, e1, h3) = bind-eq-ok (or_err (new_gcm master) bad_key) _ h2 in
      let nonce : Bytes = take 12 (drop 1 env) in
      let sealed : Bytes = take 48 (drop 12 (drop 1 env)) in
      let (dek, e2, h4) = bind-eq-ok (or_err (aead.unseal kek nonce sealed) tampered) _ h3 in
      let (inner, e3, h5) = bind-eq-ok (or_err (new_gcm dek) bad_key) _ h4 in
      record {
        kek_nonce = take 12 (drop 1 env);
        wrapped = take 48 (drop 12 (drop 1 env));
        dek_nonce = take 12 (drop 48 (drop 12 (drop 1 env)));
        payload = drop 12 (drop 48 (drop 12 (drop 1 env)));
        dek = dek;
        split = split_env env tag;
        sizes = part_sizes env tag (leb→le _ _ long);
        long = leb→le _ _ long;
        key_opened =
            rw (← new_gcm-eq master kek (or_err-eq-ok _ _ e1))
              (or_err-eq-ok (aead.unseal kek nonce sealed) tampered e2);
        payload_opened = rw (← new_gcm-eq dek inner (or_err-eq-ok _ _ e3)) (
            or_err-eq-ok
              (aead.unseal inner (take 12 (drop 48 (drop 12 (drop 1 env))))
                (drop 12 (drop 48 (drop 12 (drop 1 env)))))
              tampered h5);
      }
