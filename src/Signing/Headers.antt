-- ===== src/Signing/Headers.antt =====
-- Reading headers behind those that SignAt sets, and the signature base in terms of them.
use diarion_core.Prelude.{
  ◌≡◌, ◌≢◌, ◌⊎◌, refl, Bool, true, false, ◌||◌, some, List, [], ◌∷◌, Bool-cases, inl, inr, Bytes,
  codes, bytes_eq, bytes_eq_refl, bytes_eq→eq,
}
use diarion_core.Prelude.Result.{ok}
use diarion_core.Stdlib.Hex
use diarion_core.Stdlib.Strings.{to_lower, to_lower_byte}
use diarion_core.Signing.Message.{
  Request, Sfv, InnerList, get, header_get, set_key, header_set, non_empty, component_value,
  base_lines, components, build_signature_base,
}
use diarion_core.Signing.Signer.{with_digest_headers, with_signature_headers}

get-set_key_same : (k v : Bytes) (h : List (Bytes × Bytes)) → get k (set_key k v h) ≡ some v
unfolding get set_key
get-set_key_same k v [] = rw (bytes_eq_refl k) refl
get-set_key_same k v ((j, w) ∷ h) = elim (Bool-cases (bytes_eq j k)) [
  | inl e ↦ rw (e, bytes_eq_refl k) refl
  | inr e ↦ rw (e, e, get-set_key_same k v h) refl
]

get-set_key_other :
    (k j v : Bytes) (h : List (Bytes × Bytes))
    → bytes_eq j k ≡ false
    → get k (set_key j v h) ≡ get k h
unfolding get set_key
get-set_key_other k j v [] n = rw n refl
get-set_key_other k j v ((i, w) ∷ h) n = elim (Bool-cases (bytes_eq i j)) [
  | inl e ↦ let eq : i ≡ j = bytes_eq→eq i j e in rw (eq, bytes_eq_refl j, n) refl
  | inr e ↦ rw (e, get-set_key_other k j v h n) refl
]

pub header_get-header_set :
    (name v : Bytes) (h : List (Bytes × Bytes)) → header_get name (header_set name v h) ≡ v
unfolding header_get header_set
header_get-header_set name v h = rw (get-set_key_same (to_lower name) v h) refl

pub header_get-header_set_other :
    (name other v : Bytes) (h : List (Bytes × Bytes))
    → bytes_eq (to_lower other) (to_lower name) ≡ false
    → header_get name (header_set other v h) ≡ header_get name h
unfolding header_get header_set
header_get-header_set_other name other v h n =
    rw (get-set_key_other (to_lower name) (to_lower other) v h n) refl

-- What the three headers read as.
pub record Carries (req : Request) (digest fingerprint prev : Bytes) : Type 0 where
  pub digest_is : header_get (codes "Content-Digest") req.headers ≡ digest
  pub key_is : header_get (codes "Diarion-Key-Id") req.headers ≡ fingerprint
  pub prev_is : header_get (codes "Diarion-Prev-Entry-Hash") req.headers ≡ Hex.encode prev

pub with_digest_headers-Carries :
    (req : Request) (digest fingerprint prev : Bytes)
    → Carries (with_digest_headers req digest fingerprint prev) digest fingerprint prev
unfolding to_lower to_lower_byte bytes_eq
with_digest_headers-Carries req digest fingerprint prev = record {
  digest_is =
      rw
        (
          header_get-header_set_other (codes "Content-Digest") (codes "Diarion-Prev-Entry-Hash")
              (Hex.encode prev) _ refl,
          header_get-header_set_other (codes "Content-Digest") (codes "Diarion-Key-Id") fingerprint
              _ refl,
          header_get-header_set (codes "Content-Digest") digest req.headers,
        )
        refl;
  key_is =
      rw
        (
          header_get-header_set_other (codes "Diarion-Key-Id") (codes "Diarion-Prev-Entry-Hash")
              (Hex.encode prev) _ refl,
          header_get-header_set (codes "Diarion-Key-Id") fingerprint _,
        )
        refl;
  prev_is = header_get-header_set (codes "Diarion-Prev-Entry-Hash") _ _;
}

-- A header with another name than the signature's two reads as before.
header_get-with_signature_headers :
    (req : Request) (input sig name : Bytes)
    → bytes_eq (to_lower (codes "Signature")) (to_lower name) ≡ false
    → bytes_eq (to_lower (codes "Signature-Input")) (to_lower name) ≡ false
    → header_get name (with_signature_headers req input sig).headers ≡ header_get name req.headers
header_get-with_signature_headers req input sig name s i =
    rw
      (
        header_get-header_set_other name (codes "Signature") sig _ s,
        header_get-header_set_other name (codes "Signature-Input") input req.headers i,
      )
      refl

pub with_signature_headers-Carries :
    (req : Request) (digest fingerprint prev input sig : Bytes)
    → Carries req digest fingerprint prev
    → Carries (with_signature_headers req input sig) digest fingerprint prev
unfolding to_lower to_lower_byte bytes_eq
with_signature_headers-Carries req digest fingerprint prev input sig c = record {
  digest_is =
      rw (header_get-with_signature_headers req input sig (codes "Content-Digest") refl refl)
        c.digest_is;
  key_is =
      rw (header_get-with_signature_headers req input sig (codes "Diarion-Key-Id") refl refl)
        c.key_is;
  prev_is =
      rw
        (header_get-with_signature_headers req input sig (codes "Diarion-Prev-Entry-Hash") refl
          refl)
        c.prev_is;
}

pub with_signature_headers-input :
    (req : Request) (input sig : Bytes)
    → header_get (codes "Signature-Input") (with_signature_headers req input sig).headers ≡ input
unfolding to_lower to_lower_byte bytes_eq
with_signature_headers-input req input sig =
    rw (header_get-header_set_other (codes "Signature-Input") (codes "Signature") sig _ refl)
      (header_get-header_set (codes "Signature-Input") input req.headers)

pub with_signature_headers-sig :
    (req : Request) (input sig : Bytes)
    → header_get (codes "Signature") (with_signature_headers req input sig).headers ≡ sig
with_signature_headers-sig req input sig = header_get-header_set (codes "Signature") sig _

-- The base depends on the request line and on what the three headers read as.
pub record SameBase (req req' : Request) : Type 0 where
  pub method_is : req'.method ≡ req.method
  pub host_is : req'.host ≡ req.host
  pub path_is : req'.path ≡ req.path
  pub query_is : req'.raw_query ≡ req.raw_query
  pub headers_are :
      (name : Bytes)
      → bytes_eq name (codes "content-digest")
          || bytes_eq name (codes "diarion-key-id")
          || bytes_eq name (codes "diarion-prev-entry-hash")
        ≡ true
      → header_get name req'.headers ≡ header_get name req.headers

component_value-same :
    (req req' : Request) (name : Bytes)
    → SameBase req req'
    → component_value req' name ≡ component_value req name
unfolding component_value
component_value-same req req' name s =
    rw (s.method_is, s.host_is, s.path_is, s.query_is)
      elim (Bool-cases (is_header name)) [
        | inl e ↦ rw (s.headers_are name e) refl
        | inr e ↦ rw e refl
      ]
  where
    is_header : Bytes → Bool
    is_header name =
        bytes_eq name (codes "content-digest")
        || bytes_eq name (codes "diarion-key-id")
        || bytes_eq name (codes "diarion-prev-entry-hash")

base_lines-same :
    (req req' : Request) (names : List Bytes)
    → SameBase req req'
    → base_lines req' names ≡ base_lines req names
unfolding base_lines
base_lines-same req req' [] s = refl
base_lines-same req req' (name ∷ names) s =
    rw (component_value-same req req' name s, base_lines-same req req' names s) refl

pub build_signature_base-same :
    (sfv : Sfv) (req req' : Request) (l : InnerList)
    → SameBase req req'
    → build_signature_base sfv req' l ≡ build_signature_base sfv req l
unfolding build_signature_base
build_signature_base-same sfv req req' l s = rw (base_lines-same req req' components s) refl

covered_header-cases :
    (name : Bytes)
    → bytes_eq name (codes "content-digest")
        || bytes_eq name (codes "diarion-key-id")
        || bytes_eq name (codes "diarion-prev-entry-hash")
      ≡ true
    → (name ≡ codes "content-digest")
      ⊎ ((name ≡ codes "diarion-key-id") ⊎ (name ≡ codes "diarion-prev-entry-hash"))
covered_header-cases name h = elim (Bool-cases (bytes_eq name (codes "content-digest"))) [
  | inl d ↦ inl (bytes_eq→eq _ _ d)
  | inr nd ↦ elim (Bool-cases (bytes_eq name (codes "diarion-key-id"))) [
    | inl k ↦ inr (inl (bytes_eq→eq _ _ k))
    | inr nk ↦ inr (inr (bytes_eq→eq _ _ (rw (nd, nk) at h)))
  ]
]

-- The signature's own headers are not among those it covers.
pub with_signature_headers-SameBase :
    (req : Request) (input sig : Bytes) → SameBase req (with_signature_headers req input sig)
unfolding bytes_eq to_lower to_lower_byte
with_signature_headers-SameBase req input sig = record {
  method_is = refl;
  host_is = refl;
  path_is = refl;
  query_is = refl;
  headers_are = λ name e. elim (covered_header-cases name e) [
    | inl d ↦
        rw d (header_get-with_signature_headers req input sig (codes "content-digest") refl refl)
    | inr (inl k) ↦
        rw k (header_get-with_signature_headers req input sig (codes "diarion-key-id") refl refl)
    | inr (inr p) ↦ rw p (
        header_get-with_signature_headers req input sig (codes "diarion-prev-entry-hash") refl refl)
  ];
}

non_empty-ok : (v : Bytes) → v ≢ [] → non_empty v ≡ ok v
non_empty-ok [] n = absurd (n refl)
non_empty-ok (c ∷ s) n = refl

-- The base exists if none of the three headers is empty.
pub build_signature_base-ok :
    (sfv : Sfv) (req : Request) (digest fingerprint prev params : Bytes) (l : InnerList)
    → Carries req digest fingerprint prev
    → digest ≢ []
    → fingerprint ≢ []
    → Hex.encode prev ≢ []
    → sfv.marshal_inner_list l ≡ some params
    → (base : Bytes) × (build_signature_base sfv req l ≡ ok base)
unfolding build_signature_base base_lines bytes_eq component_value header_get to_lower to_lower_byte
build_signature_base-ok sfv req digest fingerprint prev params l c nd nf np m =
    rw
      (c.digest_is, c.key_is, c.prev_is, non_empty-ok _ nd, non_empty-ok _ nf, non_empty-ok _ np, m)
      (_, refl)
