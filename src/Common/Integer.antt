-- ===== src/Common/Integer.antt =====
-- Signed integers, for `long long`, `ssize_t` and error codes.
use Prim.Native.Nat.{ℕ}

-- `negsuc n` is -(n + 1).
pub data ℤ : Type 0 where
  pos : ℕ → ℤ
  negsuc : ℕ → ℤ
