-- ===== src/Prelude/Int.antt =====
-- A C++ `int`, as far as the program computes with one: division rounds towards zero.
use Prim.Native.Nat.{ℕ, zero, suc, ◌+◌, ◌*◌, ◌/◌, ◌%◌}

-- `negsuc n` is -(n + 1).
pub data ℤ : Type 0 where
  pos : ℕ → ℤ
  negsuc : ℕ → ℤ

unfoldable pub neg : ℕ → ℤ
neg zero = pos 0
neg (suc n) = negsuc n

unfoldable pub quot : ℤ → ℕ → ℤ
unfolding neg
quot (pos n) k = pos (n / k)
quot (negsuc n) k = neg ((n + 1) / k)

unfoldable pub rem : ℤ → ℕ → ℤ
unfolding neg
rem (pos n) k = pos (n % k)
rem (negsuc n) k = neg ((n + 1) % k)

unfoldable pub scale : ℤ → ℕ → ℤ
unfolding neg
scale (pos n) k = pos (n * k)
scale (negsuc n) k = neg ((n + 1) * k)
