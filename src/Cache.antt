-- ===== src/Cache.antt =====
-- cache.go and byteview.go: the cache of one node, a store with counters. A method on a nil cache is
-- left to the callers, which test for one first; `context` is not read.
pub mod Reads
pub mod Deletes
mod Tests
use locache.Base.{
  ℕ, ◌+◌, ◌-◌, ◌*◌, ◌^◌, Option, none, some, Bool, true, false, leb, if◌then◌else◌, length,
}
use locache.Base.Words.{add64, gt64}
use locache.Base.Str.{Str}
use locache.Store.Options.{CacheType, lru, sharded_lru, other, Options, minute}
use locache.Store.Choice.{Store, new_store}
use locache.Store.Choice
use Prim.Native.Nat.{min}

-- The immutable bytes of byteview.go.
pub record ByteView : Type 0 where
  pub b : Str

-- The values of a store: a view, or a value of another type, of which only its `Len` is known.
pub data Value : Type 0 where
  view_value : ByteView → Value
  foreign_value : ℕ → Value

unfoldable pub size : Value → ℕ
size (view_value v) = length v.b
size (foreign_value n) = n

-- `none` is the empty CacheType.
pub record CacheOptions : Type 0 where
  pub cache_type : Option CacheType
  pub max_bytes : ℕ
  pub shard_count : ℕ
  pub cleanup_time : ℕ
  pub on_evicted : Bool

unfoldable pub default_cache_options : CacheOptions
default_cache_options = record {
  cache_type = some sharded_lru;
  max_bytes = 8 * 2 ^ 20;
  shard_count = 16;
  cleanup_time = minute;
  on_evicted = false;
}

pub record Cache : Type 0 where
  pub store : Store Value
  pub hits : ℕ
  pub misses : ℕ
  pub closed : Bool

abbrev pub chosen_type : Option CacheType → CacheType
chosen_type none = sharded_lru
chosen_type (some t) = t

-- What `NewCache` passes to the store.
unfoldable pub store_options : CacheOptions → Options
store_options opts = record {
  max_bytes = opts.max_bytes;
  shard_count = if gt64 opts.shard_count 0 then opts.shard_count else 16;
  cleanup_interval = if gt64 opts.cleanup_time 0 then opts.cleanup_time else minute;
  on_evicted = opts.on_evicted;
}

unfoldable pub new_cache : CacheOptions → Option Cache
new_cache opts = elim (new_store (chosen_type opts.cache_type) (store_options opts)) [
  | none ↦ none
  | some s ↦ some (record { store = s; hits = 0; misses = 0; closed = false })
]

unfoldable pub with_store : Option (Store Value) → Cache → Option Cache
with_store none c = none
with_store (some s) c = some (record c { store = s })

unfoldable pub add : Str → ByteView → ℕ → ℕ → Cache → Option Cache
add key value now later c =
    if c.closed
    then some c
    else with_store (Choice.set_key size key (some (view_value value)) now later c.store) c

-- The first reading of the clock is that of time.Until, whose result saturates.
unfoldable pub add_with_expiration : Str → ByteView → ℕ → ℕ → ℕ → ℕ → Cache → Option Cache
add_with_expiration key value expiration start now later c =
    if c.closed
    then some c
    else if leb expiration start
    then some c
    else with_store
        (Choice.set_with_expiration size key (some (view_value value))
          (min (expiration - start) (2 ^ 63 - 1)) now later c.store)
        c

-- The counters and the answer, for what the store found.
unfoldable pub counted : Option Value → Cache → Cache × Option ByteView
counted none c = (record c { misses = add64 c.misses 1 }, none)
counted (some (foreign_value n)) c = (record c { misses = add64 c.misses 1 }, none)
counted (some (view_value v)) c = (record c { hits = add64 c.hits 1 }, some v)

unfoldable pub get : Str → ℕ → Cache → Option (Cache × Option ByteView)
get key now c = if c.closed then some (c, none) else elim (Choice.get size key now c.store) [
  | none ↦ none
  | some (s, found) ↦ some (counted found (record c { store = s }))
]

unfoldable pub delete_key : Str → Cache → Option (Cache × Bool)
delete_key key c = if c.closed then some (c, false) else elim (Choice.delete_key size key c.store) [
  | none ↦ none
  | some (s, removed) ↦ some (record c { store = s }, removed)
]

unfoldable pub clear : Cache → Cache
clear c =
    if c.closed then c else record c { store = Choice.clear size c.store; hits = 0; misses = 0 }

unfoldable pub len : Cache → ℕ
len c = if c.closed then 0 else Choice.len size c.store

unfoldable pub close : Cache → Cache
close c = if c.closed then c else record c { closed = true; store = Choice.close size c.store }

-- The hit rate is a fraction, the hits over the total, where the total is positive.
pub record Stats : Type 0 where
  pub closed : Bool
  pub hits : ℕ
  pub misses : ℕ
  pub size : ℕ
  pub hit_rate : Option (ℕ × ℕ)

unfoldable pub stats : Cache → Stats
stats c = record {
  closed = c.closed;
  hits = c.hits;
  misses = c.misses;
  size = len c;
  hit_rate = if gt64 (add64 c.hits c.misses) 0 then some (c.hits, add64 c.hits c.misses) else none;
}
