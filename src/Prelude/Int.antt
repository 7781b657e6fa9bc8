-- ===== src/Prelude/Int.antt =====
-- Signed integers: `negsuc n` is -(n + 1). An int64 is one of these in range.
use Prim.Native.Nat.{ℕ, ◌<◌, ◌^◌}

pub data ℤ : Type 0 where
  pos : ℕ → ℤ
  negsuc : ℕ → ℤ

-- The range of an int64.
abbrev pub IsInt64 : ℤ → Type 0
IsInt64 (pos n) = n < 2 ^ 63
IsInt64 (negsuc n) = n < 2 ^ 63
