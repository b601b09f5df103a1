-- ===== src/Base/Bits.antt =====
-- A bound on `&`, and the powers of two.
use Prim.Native.Nat.{ℕ, zero, suc, ◌/◌, ◌^◌, ◌≤◌, min, bit_and, digits, bit_and-bitwise}
use mathlib.Core.Path.{◌≡◌}
use native.Mathlib.Omega.{arith}

-- The digits of `a & b`, on `n` rounds.
abbrev masked : ℕ → ℕ → ℕ → ℕ
masked n a b = digits (λ b'. zero) min n a b

masked-le : (n a b : ℕ) → masked n a b ≤ b
masked-le zero zero b = omega arith
masked-le zero (suc a) b = omega arith
masked-le (suc n) zero b = omega arith
masked-le (suc n) (suc a) b = omega (arith, masked-le n (suc a / 2) (b / 2))

-- A mask is never exceeded.
pub bit_and-le : (a b : ℕ) → bit_and a b ≤ b
bit_and-le a b = omega (arith, bit_and-bitwise a b, masked-le a a b)

-- n is a power of two.
abbrev pub IsPowerOfTwo : ℕ → Type 0
IsPowerOfTwo n = (k : ℕ) × (n ≡ 2 ^ k)
