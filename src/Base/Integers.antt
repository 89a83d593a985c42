-- ===== src/Base/Integers.antt =====
-- C's signed numbers.
use Prim.Native.Nat.{ℕ}

-- `negsuc n` is the number - (n + 1).
pub data ℤ : Type 0 where
  pos : ℕ → ℤ
  negsuc : ℕ → ℤ
