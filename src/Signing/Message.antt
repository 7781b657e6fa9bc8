-- ===== src/Signing/Message.antt =====
-- internal/signing: the request parts that are signed, the structured fields of
-- github.com/dunglas/httpsfv as far as they are read, and the signature base of signer.go.
-- Header names meet in lower case, as http.Header's canonical form makes them meet; methods and
-- hosts are ASCII.
use diarion_core.Prelude.{
  ◌-◌, Bool, ◌&&◌, ◌||◌, Option, none, some, List, [], ◌∷◌, ◌++◌, leb, if◌then◌else◌, map, Bytes,
  bytes_eq, codes,
}
use diarion_core.Prelude.Int.{ℤ}
use diarion_core.Prelude.Result.{Result, ok, err, ◌>>=◌, or_err}
use diarion_core.Stdlib.Strings.{to_lower}

-- An RFC 8941 bare item by its Go type: string, int64, []byte, or another.
pub data Bare : Type 0 where
  str bytes : Bytes → Bare
  int : ℤ → Bare
  other : Bare

abbrev pub Params : Type 0
Params = List (Bytes × Bare)

pub record Item : Type 0 where
  pub value : Bare
  pub params : Params

pub record InnerList : Type 0 where
  pub items : List Item
  pub params : Params

pub data Member : Type 0 where
  item : Item → Member
  inner : InnerList → Member

abbrev pub Dictionary : Type 0
Dictionary = List (Bytes × Member)

-- The calls of httpsfv; `none` is an error.
pub record Sfv : Type 0 where
  pub unmarshal_dictionary : Bytes → Option Dictionary
  pub marshal_dictionary : Dictionary → Option Bytes
  pub marshal_inner_list : InnerList → Option Bytes

-- crypto/sha256 and crypto/ed25519.
pub record Crypto : Type 0 where
  pub sha256 : Bytes → Bytes
  pub ed25519_sign : Bytes → Bytes → Bytes
  pub ed25519_verify : Bytes → Bytes → Bytes → Bool

-- `Get` of a dictionary or of parameters.
unfoldable pub get {ℓ} : {A : Type ℓ} → Bytes → List (Bytes × A) → Option A
get k [] = none
get k ((j, v) ∷ m) = if bytes_eq j k then some v else get k m

pub record Request : Type 0 where
  pub method : Bytes
  pub host : Bytes
  pub path : Bytes
  pub raw_query : Bytes
  pub headers : List (Bytes × Bytes)

abbrev or_empty : Option Bytes → Bytes
or_empty (some v) = v
or_empty none = []

-- `Header.Get`: "" for a header that is not there.
unfoldable pub header_get : Bytes → List (Bytes × Bytes) → Bytes
unfolding get
header_get name h = or_empty (get (to_lower name) h)

unfoldable pub set_key : Bytes → Bytes → List (Bytes × Bytes) → List (Bytes × Bytes)
set_key k v [] = (k, v) ∷ []
set_key k v ((j, w) ∷ h) = if bytes_eq j k then (k, v) ∷ h else (j, w) ∷ set_key k v h

unfoldable pub header_set : Bytes → Bytes → List (Bytes × Bytes) → List (Bytes × Bytes)
header_set name v h = set_key (to_lower name) v h

unfoldable pub to_upper : Bytes → Bytes
to_upper s = map (λ c. if leb b'a' c && leb c b'z' then c - 32 else c) s

abbrev pub components : List Bytes
components =
    codes "@method"
    ∷ codes "@authority"
    ∷ codes "@path"
    ∷ codes "@query"
    ∷ codes "content-digest"
    ∷ codes "diarion-key-id"
    ∷ codes "diarion-prev-entry-hash"
    ∷ []

abbrev pub signature_label : Bytes
signature_label = codes "sig1"

pub data BaseError : Type 0 where
  missing_header unsupported_component marshal_failed : BaseError

abbrev path_or_slash : Bytes → Bytes
path_or_slash [] = b'/' ∷ []
path_or_slash (c ∷ s) = c ∷ s

abbrev pub non_empty : Bytes → Result BaseError Bytes
non_empty [] = err missing_header
non_empty (c ∷ s) = ok (c ∷ s)

unfoldable pub component_value : Request → Bytes → Result BaseError Bytes
component_value req name =
    if bytes_eq name (codes "@method")
    then ok (to_upper req.method)
    else if bytes_eq name (codes "@authority")
    then ok (to_lower req.host)
    else if bytes_eq name (codes "@path")
    then ok (path_or_slash req.path)
    else if bytes_eq name (codes "@query")
    then ok (b'?' ∷ req.raw_query)
    else if bytes_eq name (codes "content-digest")
        || bytes_eq name (codes "diarion-key-id")
        || bytes_eq name (codes "diarion-prev-entry-hash")
    then non_empty (header_get name req.headers)
    else err unsupported_component

-- `"name": value` and a line break, for each component.
unfoldable pub base_lines : Request → List Bytes → Result BaseError Bytes
base_lines req [] = ok []
base_lines req (name ∷ names) = do
  val ← component_value req name
  rest ← base_lines req names
  ok (b'"' ∷ (name ++ (codes "\": " ++ (val ++ (10 ∷ rest)))))

unfoldable pub build_signature_base : Sfv → Request → InnerList → Result BaseError Bytes
build_signature_base sfv req sig_input = do
  lines ← base_lines req components
  params ← or_err (sfv.marshal_inner_list sig_input) marshal_failed
  ok (lines ++ (codes "\"@signature-params\": " ++ params))
