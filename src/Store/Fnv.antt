-- ===== src/Store/Fnv.antt =====
-- hash/fnv, as store/sharded_lru.go uses it: the 32-bit FNV-1a hash of the bytes of a key.
use Prim.Native.Nat.{bit_xor}
use locache.Base.{ℕ, ◌*◌, ◌%◌, ◌^◌, [], ◌∷◌}
use locache.Base.Str.{Str}

unfoldable pub fnv_from : ℕ → Str → ℕ
fnv_from h [] = h
fnv_from h (b ∷ rest) = fnv_from (bit_xor h b * 16777619 % 2 ^ 32) rest

unfoldable pub fnv32a : Str → ℕ
unfolding fnv_from
fnv32a key = fnv_from 2166136261 key
