-- ===== src/Store/Choice/Backing.antt =====
-- The LRU that serves a key of a store, and the calls on the key.
use locache.Base.{
  ℕ, zero, suc, ◌≡◌, refl, ◌∙◌, ap, Option, none, some, List, [], ◌∷◌, arith, length, get_elem?,
  set, map, Bool,
}
use locache.Base.Str.{Str}
use locache.Base.Map.{lookup}
use locache.Store.Lru.{Lru}
use locache.Store.Lru
use locache.Store.Sharded.{Sharded, shard, with_shard, shard_index}
use locache.Store.Sharded
use locache.Store.Choice.{
  Store, single, spread, spread_of, spread_with, get, set_with_expiration, delete_key, clear,
}

length-set : {A : Type 0} (l : List A) (i : ℕ) (x : A) → length (set l i x) ≡ length l
length-set [] i x = refl
length-set (y ∷ l) zero x = refl
length-set (y ∷ l) (suc i) x = ap suc (length-set l i x)

get_elem?-set :
    {A : Type 0} (l : List A) (i : ℕ) (x y : A)
    → get_elem? l i ≡ some y
    → get_elem? (set l i x) i ≡ some x
get_elem?-set [] i x y e = cc
get_elem?-set (z ∷ l) zero x y e = refl
get_elem?-set (z ∷ l) (suc i) x y e = get_elem?-set l i x y e

length-map : {A B : Type 0} (f : A → B) (l : List A) → length (map f l) ≡ length l
length-map f [] = refl
length-map f (x ∷ l) = ap suc (length-map f l)

get_elem?-map :
    {A B : Type 0} (f : A → B) (l : List A) (i : ℕ) (x : A)
    → get_elem? l i ≡ some x
    → get_elem? (map f l) i ≡ some (f x)
get_elem?-map f [] i x e = cc
get_elem?-map f (y ∷ l) zero x e = ground arith
get_elem?-map f (y ∷ l) (suc i) x e = get_elem?-map f l i x e

shard-with_shard :
    {V : Type 0} (key : Str) (c c' : Lru V) (s : Sharded V)
    → shard key s ≡ some c
    → shard key (with_shard key c' s) ≡ some c'
unfolding shard with_shard
shard-with_shard key c c' s e =
    ap (λ n. get_elem? (set s.shards (shard_index key (length s.shards)) c') (shard_index key n))
      (length-set s.shards (shard_index key (length s.shards)) c')
    ∙ get_elem?-set s.shards (shard_index key (length s.shards)) c' c e

-- The LRU that serves the key; an index of the shards out of range has none.
unfoldable pub backing : {V : Type 0} → Str → Store V → Option (Lru V)
backing key (single c) = some c
backing key (spread s) = shard key s

module _ {V : Type 0} (size : V → ℕ) (key : Str) where
  pub get-backing :
      (now : ℕ) (s : Store V) (c : Lru V)
      → backing key s ≡ some c
      → (s' : Store V) × ((get size key now s ≡ some (s', (Lru.get size key now c).1))
          × (backing key s' ≡ some (Lru.get size key now c).0))
  unfolding backing get spread_with Sharded.get
  get-backing now (single c') c e =
      (single (Lru.get size key now c').0, (ground arith, ground arith))
  get-backing now (spread s) c e = (
    spread (with_shard key (Lru.get size key now c).0 s),
    (ground arith, shard-with_shard key c _ s e),
  )

  pub set-backing :
      (value : Option V) (expiration now later : ℕ) (s : Store V) (c : Lru V)
      → backing key s ≡ some c
      → (s' : Store V) × ((set_with_expiration size key value expiration now later s ≡ some s')
          × (backing key s' ≡ some (Lru.set_with_expiration size key value expiration now later c)))
  unfolding backing set_with_expiration spread_of Sharded.set_with_expiration
  set-backing value expiration now later (single c') c e = (
    single (Lru.set_with_expiration size key value expiration now later c'),
    (refl, ground arith),
  )
  set-backing value expiration now later (spread s) c e = (
    spread (with_shard key (Lru.set_with_expiration size key value expiration now later c) s),
    (ground arith, shard-with_shard key c _ s e),
  )

  pub delete_key-backing :
      (s : Store V) (c : Lru V)
      → backing key s ≡ some c
      → (s' : Store V) × (removed : Bool) × ((delete_key size key s ≡ some (s', removed))
          × (backing key s' ≡ some (Lru.delete_key size key c).0))
  unfolding backing delete_key spread_with Sharded.delete_key
  delete_key-backing (single c') c e =
      (single (Lru.delete_key size key c').0, (Lru.delete_key size key c').1, (refl, ground arith))
  delete_key-backing (spread s) c e = (
    spread (with_shard key (Lru.delete_key size key c).0 s),
    (Lru.delete_key size key c).1,
    (ground arith, shard-with_shard key c _ s e),
  )

  pub clear-backing :
      (s : Store V) (c : Lru V)
      → backing key s ≡ some c
      → backing key (clear size s) ≡ some (Lru.clear size c)
  unfolding backing clear shard Sharded.clear
  clear-backing (single c') c e = ground arith
  clear-backing (spread s) c e =
      ap (λ n. get_elem? (map (Lru.clear size) s.shards) (shard_index key n))
        (length-map (Lru.clear size) s.shards)
      ∙ get_elem?-map (Lru.clear size) s.shards (shard_index key (length s.shards)) c e

  -- A cleared store finds nothing.
  pub get-clear :
      (now : ℕ) (s : Store V) (c : Lru V)
      → backing key s ≡ some c
      → (s' : Store V) × (get size key now (clear size s) ≡ some (s', none))
  unfolding Lru.get Lru.clear Lru.find_elem lookup
  get-clear now s c e =
      let (s', (found, _)) =
        get-backing now (clear size s) (Lru.clear size c) (clear-backing s c e) in
      (s', found)
