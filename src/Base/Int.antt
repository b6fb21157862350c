-- ===== src/Base/Int.antt =====
-- Signed integers, as the native numbers see them. `negsuc n` is -(n + 1).
use Prim.Native.Nat.{ℕ}

pub data ℤ : Type 0 where
  pos : ℕ → ℤ
  negsuc : ℕ → ℤ
