-- ===== src/Base/Int.antt =====
-- Signed integers, as far as the program reads them: `negsuc n` is -(n + 1).
use Prim.Native.Nat.{ℕ}

pub data ℤ : Type 0 where
  pos : ℕ → ℤ
  negsuc : ℕ → ℤ
