-- ===== src/Base/Int.antt =====
-- Python's integers where an argument may be negative: a number, or minus one more than a number.
use Prim.Native.Nat.{ℕ}

pub data ℤ : Type 0 where
  pos : ℕ → ℤ
  negsuc : ℕ → ℤ
