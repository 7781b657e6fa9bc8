-- ===== src/Cursor/Tests.antt =====
-- Cursors at concrete values.
use diarion_core.Prelude.{◌≡◌, refl, some, codes, arith}
use diarion_core.Prelude.Int.{pos, negsuc}
use diarion_core.Stdlib.BigEndian.{put_uint64, to_uint64}
use diarion_core.Stdlib.Base64
use diarion_core.Cursor.{
  encode_published_at_id, decode_published_at_id, encode_rank_id, decode_rank_id,
}
use diarion_core.Cursor.RoundTrip.{decode-encode_time, decode-encode_rank}

cursor_text :
    encode_published_at_id (pos 1779062400000000000) (pos 42) ≡ codes "GLB_07FBAAAAAAAAAAAAKg"
unfolding encode_published_at_id put_uint64 to_uint64 Base64.encode
cursor_text = refl

decode-encode_time_example :
    decode_published_at_id (encode_published_at_id (negsuc 999) (pos 42))
    ≡ some (negsuc 999, pos 42)
decode-encode_time_example = decode-encode_time (negsuc 999) (pos 42) (omega arith) (omega arith)

decode-encode_rank_example :
    decode_rank_id (encode_rank_id 1065353216 (pos 7)) ≡ some (1065353216, pos 7)
decode-encode_rank_example = decode-encode_rank 1065353216 (pos 7) (omega arith) (omega arith)
