-- ===== src/Prelude/Ints.antt =====
-- Signed integers, which the model stores and never computes with.
use Prim.Native.Nat.{ℕ}

-- `negsuc n` is -(n + 1).
pub data ℤ : Type 0 where
  pos : ℕ → ℤ
  negsuc : ℕ → ℤ
