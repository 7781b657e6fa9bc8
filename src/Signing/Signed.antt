-- ===== src/Signing/Signed.antt =====
-- What an accepted request carries, stated apart from the order of Verify's checks.
use diarion_core.Prelude.{
  ℕ, ◌+◌, ◌*◌, ◌≤◌, ◌≡◌, refl, Bool, true, false, ◌&&◌, Option, none, some, List, [], ◌∷◌, arith,
  leb, leb→le, map, length, Bytes, codes, bytes_eq→eq,
}
use diarion_core.Prelude.Int.{ℤ, pos, negsuc}
use diarion_core.Prelude.Result.{ok}
use diarion_core.Prelude.Partial.{◌>>=◌ as ◌>>=?◌}
use diarion_core.Stdlib.Hex
use diarion_core.Signing.Message.{
  Item, InnerList, Sfv, Crypto, get, Request, header_get, components, signature_label,
  build_signature_base,
}
use diarion_core.Signing.Verifier.{
  AgentKeyRecord, VerifyResult, item_bytes, as_list, str_of, int_of, is_name, member_of, covers,
  window, in_window, equal_fold,
}

-- At most five minutes before or behind `now`.
pub InWindow : ℕ → ℤ → Type 0
InWindow now (pos s) = (now ≤ s * 1000000000 + window) × (s * 1000000000 ≤ now + window)
InWindow now (negsuc n) = now + (n + 1) * 1000000000 ≤ window

pub in_window-InWindow :
    (now : ℕ) (created : ℤ) → in_window now created ≡ true → InWindow now created
unfolding InWindow in_window
in_window-InWindow now (pos s) h =
    let (l, r) =
      and_both (leb now (s * 1000000000 + window)) (leb (s * 1000000000) (now + window)) h in
    (leb→le _ _ l, leb→le _ _ r)
  where
    and_both : (a b : Bool) → (a && b) ≡ true → (a ≡ true) × (b ≡ true)
    and_both true b h = (refl, h)
    and_both false b h = cc
in_window-InWindow now (negsuc n) h = leb→le _ _ h

-- The component names an inner list has; `none` for an item that is no string.
pub names : List Item → List (Option Bytes)
names items = map (λ i. str_of i.value) items

pub is_name-eq : (want : Bytes) (o : Option Bytes) → is_name want o ≡ true → o ≡ some want
is_name-eq want none h = cc
is_name-eq want (some got) h = rw (bytes_eq→eq got want h) refl

pub covers-names :
    (items : List Item) (want : List Bytes) → covers items want ≡ true → names items ≡ map some want
unfolding covers names
covers-names [] [] h = refl
covers-names [] (w ∷ want) h = cc
covers-names (i ∷ items) [] h = cc
covers-names (i ∷ items) (w ∷ want) h =
    ground (arith, is_name-eq w (str_of i.value), covers-names items want)

module _ (sfv : Sfv) (crypto : Crypto) where
  -- What an accepted request carries in its headers, under a record of the signer's key.
  pub record Signed (now : ℕ) (req : Request) (body : Bytes) (keyid : Bytes) (rec : AgentKeyRecord)
      (r : VerifyResult) : Type 0 where
    pub digest_of_body : r.content_digest ≡ crypto.sha256 body
    pub digest_header :
        (member_of sfv (codes "sha-256") (header_get (codes "Content-Digest") req.headers)
          >>=? item_bytes)
        ≡ some r.content_digest
    pub input : InnerList
    pub input_header :
        (member_of sfv signature_label (header_get (codes "Signature-Input") req.headers)
          >>=? as_list)
        ≡ some input
    pub all_components : names input.items ≡ map some components
    pub created : ℤ
    pub created_param : (get (codes "created") input.params >>=? int_of) ≡ some created
    pub fresh : InWindow now created
    pub keyid_param : (get (codes "keyid") input.params >>=? str_of) ≡ some keyid
    pub key_header : equal_fold (header_get (codes "Diarion-Key-Id") req.headers) keyid ≡ true
    pub key_of_record : rec.fingerprint ≡ keyid
    pub signature_header :
        (member_of sfv signature_label (header_get (codes "Signature") req.headers) >>=? item_bytes)
        ≡ some r.signature
    pub signature_len : length r.signature ≡ 64
    pub base : Bytes
    pub base_of_request : build_signature_base sfv req input ≡ ok base
    pub verified : crypto.ed25519_verify rec.public_key base r.signature ≡ true
    pub prev_header :
        Hex.decode (header_get (codes "Diarion-Prev-Entry-Hash") req.headers)
        ≡ some r.prev_entry_hash
    pub prev_len : length r.prev_entry_hash ≡ 32
    pub signer :
        (r.key_fingerprint ≡ rec.fingerprint)
        × (r.agent_id ≡ rec.agent_id)
        × (r.key_id ≡ rec.key_id)
