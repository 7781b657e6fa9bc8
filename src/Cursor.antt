-- ===== src/Cursor.antt =====
-- internal/handlers/cursor/cursor.go: opaque pagination cursors. A time is its UnixNano, an
-- int64; a float32 rank is its bit pattern, which math.Float32bits and Float32frombits keep.
pub mod RoundTrip
mod Tests
use diarion_core.Prelude.{
  ℕ, ◌≡◌, Option, none, some, ◌++◌, ◌==◌, if◌then◌else◌, length, take, drop, Bytes,
}
use diarion_core.Prelude.Int.{ℤ}
use diarion_core.Prelude.Partial.{◌>>=◌}
use diarion_core.Stdlib.BigEndian.{put_uint32, put_uint64, uint32, uint64, to_uint64, to_int64}
use diarion_core.Stdlib.Base64

abbrev pub time_cursor_len : ℕ
time_cursor_len = 16

abbrev pub rank_cursor_len : ℕ
rank_cursor_len = 12

unfoldable pub encode_published_at_id : ℤ → ℤ → Bytes
encode_published_at_id nanos id =
    Base64.encode (put_uint64 (to_uint64 nanos) ++ put_uint64 (to_uint64 id))

time_of_raw : Bytes → Option (ℤ × ℤ)
time_of_raw raw =
    if length raw == time_cursor_len
    then some (to_int64 (uint64 (take 8 raw)), to_int64 (uint64 (drop 8 raw)))
    else none

-- `none` stands for ErrInvalidCursor.
unfoldable pub decode_published_at_id : Bytes → Option (ℤ × ℤ)
unfolding time_of_raw
decode_published_at_id s = do raw ← Base64.decode s; time_of_raw raw

unfoldable pub encode_rank_id : ℕ → ℤ → Bytes
encode_rank_id rank_bits id = Base64.encode (put_uint32 rank_bits ++ put_uint64 (to_uint64 id))

rank_of_raw : Bytes → Option (ℕ × ℤ)
rank_of_raw raw =
    if length raw == rank_cursor_len
    then some (uint32 (take 4 raw), to_int64 (uint64 (drop 4 raw)))
    else none

unfoldable pub decode_rank_id : Bytes → Option (ℕ × ℤ)
unfolding rank_of_raw
decode_rank_id s = do raw ← Base64.decode s; rank_of_raw raw
