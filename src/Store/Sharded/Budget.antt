-- ===== src/Store/Sharded/Budget.antt =====
-- How newShardedLRU of store/sharded_lru.go spreads the budget over the shards.
use native.Mathlib.Nat.{div-add-mod, mod-lt, one-le-pow}
use locache.Base.{
  ℕ, zero, suc, ◌+◌, ◌-◌, ◌*◌, ◌/◌, ◌%◌, ◌^◌, ◌≤◌, ◌<◌, ◌≡◌, ◌⊎◌, inl, inr, refl, ◌∙◌, ap, some,
  List, [], ◌∷◌, true, arith, length, All,
}
use locache.Base.Words.{gt64}
use locache.Base.Bits.{IsPowerOfTwo}
use locache.Store.Options.{Options}
use locache.Store.Lru.{Lru, new_lru_internal}
use locache.Store.Sharded.{Sharded, shard_options, make_shards, with_count, new_sharded}
use locache.Store.Sharded.Rounding.{choose_count_lem, IsRoomyFor}

-- The limits of the shards together.
unfoldable pub budget : {V : Type 0} → List (Lru V) → ℕ
budget [] = 0
budget (c ∷ rest) = c.max_bytes + budget rest

module _ (V : Type 0) where
  pub length-make_shards :
      (opts : Options) (count i rounds : ℕ)
      → length (make_shards {V = V} opts count i rounds) ≡ rounds
  unfolding make_shards
  length-make_shards opts count i zero = refl
  length-make_shards opts count i (suc rounds) =
      ap suc (length-make_shards opts count (suc i) rounds)

  budget-make_shards :
      (opts : Options) (count i rounds : ℕ)
      → gt64 opts.max_bytes 0 ≡ true
      → opts.max_bytes % count ≤ i + rounds
      → budget (make_shards {V = V} opts count i rounds)
        ≡ rounds * (opts.max_bytes / count) + (opts.max_bytes % count - i)
  unfolding make_shards budget new_lru_internal shard_options
  budget-make_shards opts count i zero limited h = omega arith
  budget-make_shards opts count i (suc rounds) limited h =
      ground (arith, budget-make_shards opts count (suc i) rounds limited)

  -- No shard has less than the quotient of the limit and the count.
  make_shards-le :
      (opts : Options) (count i rounds : ℕ)
      → gt64 opts.max_bytes 0 ≡ true
      → All (λ (c : Lru V). opts.max_bytes / count ≤ c.max_bytes) (make_shards opts count i rounds)
  unfolding make_shards new_lru_internal shard_options
  make_shards-le opts count i zero limited = tt
  make_shards-le opts count i (suc rounds) limited =
      (ground arith, make_shards-le opts count (suc i) rounds limited)

  All-mono :
      (b : ℕ) (n : ℕ) (l : List (Lru V))
      → b ≤ n
      → All (λ (c : Lru V). n ≤ c.max_bytes) l
      → All (λ (c : Lru V). b ≤ c.max_bytes) l
  All-mono b n [] h a = tt
  All-mono b n (c ∷ l) h a = (omega arith, All-mono b n l h a.1)

  spread :
      (opts : Options) (count : ℕ)
      → gt64 opts.max_bytes 0 ≡ true
      → IsRoomyFor opts count
      → length (make_shards {V = V} opts count 0 count) ≡ count
      → (length (make_shards {V = V} opts count 0 count) ≡ 1)
        ⊎ All (λ (c : Lru V). 1024 ≤ c.max_bytes) (make_shards opts count 0 count)
  spread opts count limited (inl free) made = cc
  spread opts count limited (inr (inl one)) made = inl (made ∙ one)
  spread opts count limited (inr (inr room)) made =
      inr
        (All-mono 1024 (opts.max_bytes / count) _ room (make_shards-le opts count 0 count limited))

  pub budget-with_count :
      (opts : Options) (count : ℕ)
      → 0 < count
      → gt64 opts.max_bytes 0 ≡ true
      → budget (make_shards {V = V} opts count 0 count) ≡ opts.max_bytes
  budget-with_count opts count pos limited =
      budget-make_shards opts count 0 count limited
        (omega (arith, mod-lt opts.max_bytes {m = count} pos))
      ∙ omega (arith, div-add-mod opts.max_bytes count)

  -- Under a positive limit and for a requested count up to 2^62, the construction succeeds; the
  -- number of shards is a power of two, the limits of the shards add up to the limit of the store,
  -- and there is one shard, or each has at least 1 KiB.
  pub new_sharded-budget :
      (opts : Options)
      → opts.shard_count ≤ 2 ^ 62
      → gt64 opts.max_bytes 0 ≡ true
      → (s : Sharded V) × (new_sharded opts ≡ some s)
        × IsPowerOfTwo (length s.shards)
        × (budget s.shards ≡ opts.max_bytes)
        × ((length s.shards ≡ 1) ⊎ All (λ (c : Lru V). 1024 ≤ c.max_bytes) s.shards)
  unfolding new_sharded with_count
  new_sharded-budget opts h limited =
      let (j, chosen, roomy) = choose_count_lem opts h in
      let count = 2 ^ j in
      let made = length-make_shards opts count 0 count in
      let pos = one-le-pow j 2 (omega arith) in
      (
        with_count opts count,
        rw (chosen, new_sharded),
        (j, made),
        budget-with_count opts count pos limited,
        spread opts count limited roomy made,
      )
