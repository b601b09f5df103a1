-- ===== src/Store/Sharded.antt =====
-- store/sharded_lru.go: keys spread over independent LRU shards by their hash. A call that would
-- run for ever, or that indexes the shards out of range, has no result: `none`.
pub mod Count
pub mod Rounding
pub mod Budget
pub mod Routing
pub mod Capacity
use Prim.Native.Nat.{bit_and}
use locache.Base.{
  ℕ, zero, suc, ◌+◌, ◌-◌, ◌/◌, ◌%◌, Option, none, some, List, [], ◌∷◌, Bool, true, false, ltb,
  if◌then◌else◌, length, get_elem?, set, map,
}
use locache.Base.Words.{gt64}
use locache.Base.Str.{Str}
use locache.Store.Options.{Options}
use locache.Store.Lru.{Lru, new_lru_internal, default_interval}
use locache.Store.Lru
use locache.Store.Fnv.{fnv32a}
use Count.{choose_count}

pub record Sharded (V : Type 0) : Type 0 where
  pub shards : List (Lru V)
  pub interval : ℕ
  pub has_ticker : Bool
  pub closed : Bool

-- The options of shard `i`: its part of the budget, the remainder spread over the first shards.
unfoldable pub shard_options : Options → ℕ → ℕ → Options
shard_options opts count i =
    if gt64 opts.max_bytes 0
    then record opts {
      max_bytes =
          if ltb i (opts.max_bytes % count)
          then opts.max_bytes / count + 1
          else opts.max_bytes / count;
    }
    else opts

-- The loop that makes the shards, from shard `i` on, with the rounds that are left.
unfoldable pub make_shards : {V : Type 0} → Options → ℕ → ℕ → ℕ → List (Lru V)
make_shards opts count i zero = []
make_shards opts count i (suc rounds) =
    new_lru_internal (shard_options opts count i) false ∷ make_shards opts count (suc i) rounds

-- The store, once the count is settled.
unfoldable pub with_count : {V : Type 0} → Options → ℕ → Sharded V
with_count opts count = record {
  shards = make_shards opts count 0 count;
  interval = default_interval opts.cleanup_interval;
  has_ticker = true;
  closed = false;
}

unfoldable pub new_sharded : {V : Type 0} → Options → Option (Sharded V)
new_sharded opts = elim (choose_count opts) [
  | none ↦ none
  | some count ↦ some (with_count opts count)
]

-- The index that `shard` reads the slice at.
unfoldable pub shard_index : Str → ℕ → ℕ
shard_index key count = bit_and (fnv32a key) (count - 1)

module _ {V : Type 0} where
  unfoldable pub shard : Str → Sharded V → Option (Lru V)
  shard key s = get_elem? s.shards (shard_index key (length s.shards))

  -- The shards after a method of the key's shard left it as `c`.
  unfoldable pub with_shard : Str → Lru V → Sharded V → Sharded V
  with_shard key c s = record s { shards = set s.shards (shard_index key (length s.shards)) c }

module _ {V : Type 0} (size : V → ℕ) where
  unfoldable pub get : Str → ℕ → Sharded V → Option (Sharded V × Option V)
  get key now s = elim (shard key s) [
    | none ↦ none
    | some c ↦ let (c', found) = Lru.get size key now c in some (with_shard key c' s, found)
  ]

  unfoldable pub set_with_expiration : Str → Option V → ℕ → ℕ → ℕ → Sharded V → Option (Sharded V)
  set_with_expiration key value expiration now later s = elim (shard key s) [
    | none ↦ none
    | some c ↦
        some (with_shard key (Lru.set_with_expiration size key value expiration now later c) s)
  ]

  unfoldable pub set_key : Str → Option V → ℕ → ℕ → Sharded V → Option (Sharded V)
  set_key key value now later s = elim (shard key s) [
    | none ↦ none
    | some c ↦ some (with_shard key (Lru.set size key value now later c) s)
  ]

  unfoldable pub delete_key : Str → Sharded V → Option (Sharded V × Bool)
  delete_key key s = elim (shard key s) [
    | none ↦ none
    | some c ↦ let (c', removed) = Lru.delete_key size key c in some (with_shard key c' s, removed)
  ]

  unfoldable pub clear : Sharded V → Sharded V
  clear s = record s { shards = map (Lru.clear size) s.shards }

  -- The lengths of the shards, each read under its own lock.
  unfoldable pub sum_len : List (Lru V) → ℕ → ℕ
  sum_len [] total = total
  sum_len (c ∷ rest) total = sum_len rest (total + Lru.len size c)

  unfoldable pub len : Sharded V → ℕ
  unfolding sum_len
  len s = sum_len s.shards 0

  -- A tick of the timer: `clock i` is the instant that the eviction of shard `i` reads.
  unfoldable pub clean_from : (ℕ → ℕ) → ℕ → List (Lru V) → List (Lru V)
  clean_from clock i [] = []
  clean_from clock i (c ∷ rest) =
      Lru.cleanup_expired size (clock i) c ∷ clean_from clock (suc i) rest

  unfoldable pub tick : (ℕ → ℕ) → Sharded V → Sharded V
  unfolding clean_from
  tick clock s = record s { shards = clean_from clock 0 s.shards }

  unfoldable pub close : Sharded V → Sharded V
  close s =
      if s.closed
      then s
      else record s { has_ticker = false; closed = true; shards = map (Lru.close size) s.shards }
