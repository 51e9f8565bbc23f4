-- ===== src/Prelude/Int.antt =====
-- Signed integers over the native numbers.
use Prim.Native.Nat.{ℕ}

-- `negsuc n` is -(n + 1).
pub data ℤ : Type 0 where
  pos : ℕ → ℤ
  negsuc : ℕ → ℤ

-- `n.max(0) as u64`
abbrev pub max_zero : ℤ → ℕ
max_zero (pos n) = n
max_zero (negsuc n) = 0
