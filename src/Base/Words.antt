-- ===== src/Base/Words.antt =====
-- Go's int64 as its 64-bit pattern: a number below 2^64. Sums and differences wrap; the order is
-- the signed one, read off the patterns after a shift by 2^63.
use Prim.Native.Nat.{ℕ, ◌+◌, ◌-◌, ◌%◌, ◌<◌, ◌^◌}
use mathlib.Core.Bool.{Bool}
use mathlib.Core.Path.{◌≡◌}
use native.Mathlib.Omega.{arith}
use locache.Base.Tests.{ltb}

unfoldable pub add64 : ℕ → ℕ → ℕ
add64 a b = (a + b) % 2 ^ 64

unfoldable pub sub64 : ℕ → ℕ → ℕ
sub64 a b = (a + (2 ^ 64 - b % 2 ^ 64)) % 2 ^ 64

-- a > b on int64.
unfoldable pub gt64 : ℕ → ℕ → Bool
gt64 a b = ltb ((b + 2 ^ 63) % 2 ^ 64) ((a + 2 ^ 63) % 2 ^ 64)

-- On patterns of non-negative values the signed order is that of the numbers.
pub gt64_small : (a b : ℕ) → a < 2 ^ 63 → b < 2 ^ 63 → gt64 a b ≡ ltb b a
unfolding gt64
gt64_small a b h k = ground arith

-- A sum that is kept modulo 2^64 stays so when a part of it is taken away.
pub sub64_part : (u t n s : ℕ) → u ≡ t % 2 ^ 64 → n + s ≡ t → sub64 u n ≡ s % 2 ^ 64
unfolding sub64
sub64_part u t n s e h = omega arith

pub add64_part : (u t n : ℕ) → u ≡ t % 2 ^ 64 → add64 u n ≡ (t + n) % 2 ^ 64
unfolding add64
add64_part u t n e = omega arith
