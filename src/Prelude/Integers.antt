-- ===== src/Prelude/Integers.antt =====
-- Integers over the native numbers.
use Prim.Native.Nat.{ℕ}

-- An integer: `pos n` is n, and `negsuc n` is -(n + 1).
pub data ℤ : Type 0 where
  pos : ℕ → ℤ
  negsuc : ℕ → ℤ
