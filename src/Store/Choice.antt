-- ===== src/Store/Choice.antt =====
-- The interface `Store` of store/store.go over its two implementations, and `NewStore`. A call that
-- panics or does not end has no result.
pub mod Backing
use locache.Base.{ℕ, Option, none, some, Bool}
use locache.Base.Str.{Str}
use locache.Store.Options.{CacheType, lru, sharded_lru, other, Options}
use locache.Store.Lru.{Lru, new_lru}
use locache.Store.Lru
use locache.Store.Sharded.{Sharded, new_sharded}
use locache.Store.Sharded

pub data Store (V : Type 0) : Type 0 where
  single : Lru V → Store V
  spread : Sharded V → Store V

unfoldable pub spread_of : {V : Type 0} → Option (Sharded V) → Option (Store V)
spread_of none = none
spread_of (some s) = some (spread s)

unfoldable pub new_store : {V : Type 0} → CacheType → Options → Option (Store V)
new_store lru opts = some (single (new_lru opts))
new_store sharded_lru opts = spread_of (new_sharded opts)
new_store (other name) opts = spread_of (new_sharded opts)

module _ {V : Type 0} where
  unfoldable pub spread_with : {A : Type 0} → Option (Sharded V × A) → Option (Store V × A)
  spread_with none = none
  spread_with (some (s, a)) = some (spread s, a)

module _ {V : Type 0} (size : V → ℕ) where
  unfoldable pub get : Str → ℕ → Store V → Option (Store V × Option V)
  get key now (single c) = let (c', found) = Lru.get size key now c in some (single c', found)
  get key now (spread s) = spread_with (Sharded.get size key now s)

  unfoldable pub set_key : Str → Option V → ℕ → ℕ → Store V → Option (Store V)
  set_key key value now later (single c) = some (single (Lru.set size key value now later c))
  set_key key value now later (spread s) = spread_of (Sharded.set_key size key value now later s)

  unfoldable pub set_with_expiration : Str → Option V → ℕ → ℕ → ℕ → Store V → Option (Store V)
  set_with_expiration key value expiration now later (single c) =
      some (single (Lru.set_with_expiration size key value expiration now later c))
  set_with_expiration key value expiration now later (spread s) =
      spread_of (Sharded.set_with_expiration size key value expiration now later s)

  unfoldable pub delete_key : Str → Store V → Option (Store V × Bool)
  delete_key key (single c) =
      let (c', removed) = Lru.delete_key size key c in some (single c', removed)
  delete_key key (spread s) = spread_with (Sharded.delete_key size key s)

  unfoldable pub clear : Store V → Store V
  clear (single c) = single (Lru.clear size c)
  clear (spread s) = spread (Sharded.clear size s)

  unfoldable pub len : Store V → ℕ
  len (single c) = Lru.len size c
  len (spread s) = Sharded.len size s

  unfoldable pub close : Store V → Store V
  close (single c) = single (Lru.close size c)
  close (spread s) = spread (Sharded.close size s)
