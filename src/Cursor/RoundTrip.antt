-- ===== src/Cursor/RoundTrip.antt =====
-- Decoding what was encoded, and the two cursor shapes kept apart.
use diarion_core.Prelude.{
  ℕ, ◌<◌, ◌^◌, ◌≡◌, none, some, ◌++◌, arith, length, length-append, take-append_at, drop-append_at,
  All-append, IsBytes,
}
use diarion_core.Prelude.Int.{ℤ, IsInt64}
use diarion_core.Stdlib.BigEndian.{
  put_uint32, put_uint64, uint32-put_uint32, uint64-put_uint64, length-put_uint32,
  length-put_uint64, put_uint32-IsBytes, put_uint64-IsBytes, to_uint64, to_int64-to_uint64,
  to_uint64-lt,
}
use diarion_core.Stdlib.Base64
use diarion_core.Cursor.{
  encode_published_at_id, decode_published_at_id, encode_rank_id, decode_rank_id,
}

time-IsBytes : (u v : ℕ) → IsBytes (put_uint64 u ++ put_uint64 v)
time-IsBytes u v = All-append _ (put_uint64 u) _ (put_uint64-IsBytes u) (put_uint64-IsBytes v)

rank-IsBytes : (u v : ℕ) → IsBytes (put_uint32 u ++ put_uint64 v)
rank-IsBytes u v = All-append _ (put_uint32 u) _ (put_uint32-IsBytes u) (put_uint64-IsBytes v)

length-time-IsBytes : (u v : ℕ) → length (put_uint64 u ++ put_uint64 v) ≡ 16
length-time-IsBytes u v =
    omega
      (arith, length-append (put_uint64 u) (put_uint64 v), length-put_uint64 u, length-put_uint64 v)

length-rank-IsBytes : (u v : ℕ) → length (put_uint32 u ++ put_uint64 v) ≡ 12
length-rank-IsBytes u v =
    omega
      (arith, length-append (put_uint32 u) (put_uint64 v), length-put_uint32 u, length-put_uint64 v)

-- A time cursor made from any int64 nanosecond count and any int64 id decodes to exactly these.
pub decode-encode_time :
    (nanos id : ℤ)
    → IsInt64 nanos
    → IsInt64 id
    → decode_published_at_id (encode_published_at_id nanos id) ≡ some (nanos, id)
unfolding decode_published_at_id encode_published_at_id
decode-encode_time nanos id hn hi =
    let u : ℕ = to_uint64 nanos in
    let v : ℕ = to_uint64 id in
    rw (
      Base64.decode-encode _ (time-IsBytes u v),
      length-time-IsBytes u v,
      take-append_at 8 (put_uint64 u) (put_uint64 v) (length-put_uint64 u),
      drop-append_at 8 (put_uint64 u) (put_uint64 v) (length-put_uint64 u),
      uint64-put_uint64 u (to_uint64-lt nanos hn),
      uint64-put_uint64 v (to_uint64-lt id hi),
      to_int64-to_uint64 nanos hn,
      to_int64-to_uint64 id hi,
    )

-- A rank cursor made from any 32 float bits and any int64 id decodes to exactly these.
pub decode-encode_rank :
    (bits : ℕ) (id : ℤ)
    → bits < 2 ^ 32
    → IsInt64 id
    → decode_rank_id (encode_rank_id bits id) ≡ some (bits, id)
unfolding decode_rank_id encode_rank_id
decode-encode_rank bits id hb hi =
    let v : ℕ = to_uint64 id in
    rw (
      Base64.decode-encode _ (rank-IsBytes bits v),
      length-rank-IsBytes bits v,
      take-append_at 4 (put_uint32 bits) (put_uint64 v) (length-put_uint32 bits),
      drop-append_at 4 (put_uint32 bits) (put_uint64 v) (length-put_uint32 bits),
      uint32-put_uint32 bits hb,
      uint64-put_uint64 v (to_uint64-lt id hi),
      to_int64-to_uint64 id hi,
    )

-- A cursor of the search endpoint is an error at the feed endpoint, and the other way round.
pub cursor_kinds_apart :
    (nanos id id' : ℤ) (bits : ℕ)
    → (decode_published_at_id (encode_rank_id bits id) ≡ none)
      × (decode_rank_id (encode_published_at_id nanos id') ≡ none)
unfolding decode_rank_id encode_rank_id decode_published_at_id encode_published_at_id
cursor_kinds_apart nanos id id' bits = (
  rw (
    Base64.decode-encode _ (rank-IsBytes bits (to_uint64 id)),
    length-rank-IsBytes bits (to_uint64 id),
  ),
  rw (
    Base64.decode-encode _ (time-IsBytes (to_uint64 nanos) (to_uint64 id')),
    length-time-IsBytes (to_uint64 nanos) (to_uint64 id'),
  ),
)
