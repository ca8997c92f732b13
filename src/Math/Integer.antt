-- ===== src/Math/Integer.antt =====
-- The integers over the native numbers, for the `int` and `bigint` arguments of Math/.
use spdz_yao.Base.{ℕ}

-- `pos n` is n, and `negsuc n` is -(n + 1).
pub data ℤ : Type 0 where
  pos negsuc : ℕ → ℤ
