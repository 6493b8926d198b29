-- ===== src/Base/Ints.antt =====
-- Go's `int`, as far as the code passes one on.
use Prim.Native.Nat.{ℕ}

pub data ℤ : Type 0 where
  pos : ℕ → ℤ
  negsuc : ℕ → ℤ
