-- ===== src/Base/Int.antt =====
-- Python integers where the program accepts negative ones. `negsuc n` is -(n + 1).
use Prim.Native.Nat.{ℕ}

pub data ℤ : Type 0 where
  pos : ℕ → ℤ
  negsuc : ℕ → ℤ
