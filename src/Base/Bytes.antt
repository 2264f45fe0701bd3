-- ===== src/Base/Bytes.antt =====
-- Bytes and big-endian words as numbers: `u8` and `u16` arithmetic with its wrap-around.
use Prim.Native.Nat.{ℕ, zero, suc, ◌+◌, ◌*◌, ◌/◌, ◌%◌, ◌<◌}
use mathlib.Core.Path.{◌≡◌}
use mathlib.Core.List.{List, [], ◌∷◌, ◌++◌}
use native.Mathlib.Omega.{arith}
use stcbsl.Base.Lists.{length, get_or, set}

abbrev pub Bytes : Type 0
Bytes = List ℕ

abbrev pub IsByte : ℕ → Type 0
IsByte b = b < 256

-- `x as u8`, `x as u16`, `x as u32`.
abbrev pub u8 : ℕ → ℕ
u8 x = x % 0x100

abbrev pub u16 : ℕ → ℕ
u16 x = x % 0x1_0000

abbrev pub u32 : ℕ → ℕ
u32 x = x % 0x1_0000_0000

abbrev pub u64 : ℕ → ℕ
u64 x = x % 0x1_0000_0000_0000_0000

-- `u8::wrapping_add`.
abbrev pub wrapping_add : ℕ → ℕ → ℕ
wrapping_add a b = u8 (a + b)

-- `u16::from_be_bytes([hi, lo])`.
abbrev pub u16_from_be : ℕ → ℕ → ℕ
u16_from_be hi lo = hi * 0x100 + lo

-- `u16::to_be_bytes` and `u32::to_be_bytes`.
abbrev pub u16_to_be : ℕ → Bytes
u16_to_be x = u8 (x / 0x100) ∷ u8 x ∷ []

abbrev pub u32_to_be : ℕ → Bytes
u32_to_be x = u8 (x / 0x100_0000) ∷ u8 (x / 0x1_0000) ∷ u8 (x / 0x100) ∷ u8 x ∷ []

unfoldable pub sum : Bytes → ℕ
sum [] = 0
sum (b ∷ bs) = b + sum bs

pub sum-append : (xs ys : Bytes) → sum (xs ++ ys) ≡ sum xs + sum ys
unfolding sum
sum-append [] ys = omega arith
sum-append (x ∷ xs) ys = omega (arith, sum-append xs ys)

pub sum-set : (xs : Bytes) (i v : ℕ) → i < length xs → sum (set xs i v) + get_or xs i 0 ≡ sum xs + v
unfolding sum
sum-set [] i v h = absurd (omega arith)
sum-set (x ∷ xs) zero v h = omega arith
sum-set (x ∷ xs) (suc i) v h = omega (arith, sum-set xs i v (omega arith))
