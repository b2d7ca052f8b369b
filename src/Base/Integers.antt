-- ===== src/Base/Integers.antt =====
-- The integers over the native numbers: `int` results.
use Prim.Native.Nat.{ℕ}

pub data ℤ : Type 0 where
  pos negsuc : ℕ → ℤ
