-- ===== src/Base/Int.antt =====
-- Signed integers over the native numbers, as far as `i64` and `i32` values are subtracted.
use Prim.Native.Nat.{ℕ, ◌-◌}
use stcbsl.Base.Tests.{leb, if◌then◌else◌}

-- `negsuc n` is -(n + 1).
pub data ℤ : Type 0 where
  pos : ℕ → ℤ
  negsuc : ℕ → ℤ

-- a - b, as an integer.
abbrev pub sub_ℕ : ℕ → ℕ → ℤ
sub_ℕ a b = if leb b a then pos (a - b) else negsuc (b - a - 1)
