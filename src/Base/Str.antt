-- ===== src/Base/Str.antt =====
-- Go strings: sequences of bytes, compared by content.
use Prim.Native.Nat.{ℕ}
use mathlib.Core.List.{List}
use native.Mathlib.Decide.{ℕ_discrete}

abbrev pub Str : Type 0
Str = List ℕ

Str-discrete : Discrete Str
unfolding ℕ_discrete
Str-discrete = hlevel ℕ_discrete

unfoldable pub str_dec : Discrete Str
unfolding Str-discrete
str_dec = Str-discrete
