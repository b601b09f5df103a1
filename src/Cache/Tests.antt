-- ===== src/Cache/Tests.antt =====
-- Runs of the cache, and its theorems at such caches.
use locache.Base.{◌≡◌, refl, Option, none, some, [], ◌∷◌, true, false, arith, ℕ_discrete}
use locache.Base.Words.{gt64, add64, sub64}
use locache.Base.Str.{Str, str_dec}
use locache.Base.Map.{lookup, insert, delete}
use locache.Store.Options.{lru}
use locache.Store.Lru.Elems.{find_ref, remove_ref, set_value, move_to_back, find_key}
use locache.Store.Lru.{
  Lru, new_lru, new_lru_internal, default_interval, find_elem, elem_size, remove_element, sweep,
  over_budget, evict_front, evict_locked, with_deadline, store_value,
}
use locache.Store.Lru
use locache.Store.Lru.Spec.{weigh}
use locache.Store.Lru.Invariant.{IsValid, entries}
use locache.Store.Lru.Runs.{run, run-spec_run}
use locache.Store.Choice.{new_store, single}
use locache.Store.Choice
use locache.Store.Choice.Backing.{backing}
use locache.Cache.{
  ByteView, Value, size, CacheOptions, store_options, new_cache, Cache, add, add_with_expiration,
  with_store, get, counted,
}

-- Everything that a run of a cache computes with.
program : Unit {0}
unfolding str_dec ℕ_discrete lookup insert delete gt64 add64 sub64 find_ref remove_ref set_value
    move_to_back find_key new_lru new_lru_internal default_interval find_elem elem_size
    remove_element sweep over_budget evict_front evict_locked with_deadline store_value Lru.get
    Lru.set_with_expiration Lru.set Lru.delete_key new_store Choice.get Choice.set_with_expiration
    Choice.set_key backing size store_options new_cache add add_with_expiration with_store get
    counted entries weigh run
program = tt

abbrev key_a : Str
key_a = 97 ∷ []

abbrev bytes : ByteView
bytes = record { b = 1 ∷ 2 ∷ 3 ∷ [] }

abbrev opts : CacheOptions
opts = record {
  cache_type = some lru;
  max_bytes = 10;
  shard_count = 0;
  cleanup_time = 0;
  on_evicted = false;
}

abbrev new_store_lru : Lru Value
new_store_lru = new_lru_internal (store_options opts) true

new_store-IsValid : IsValid size new_store_lru
unfolding run store_options gt64
new_store-IsValid = (run-spec_run size (store_options opts) true [] (omega arith) refl tt).0

abbrev fresh_cache : Cache
fresh_cache = record { store = single new_store_lru; hits = 0; misses = 0; closed = false }

fresh_cache_lem : new_cache opts ≡ some fresh_cache
unfolding program
fresh_cache_lem = refl

fresh_cache_runs :
    (c' c'' : Cache) × ((add_with_expiration key_a bytes 109 100 100 101 fresh_cache ≡ some c')
      × (get key_a 105 c' ≡ some (c'', some bytes)))
unfolding program
fresh_cache_runs = (_, _, (refl, refl))

abbrev missed : Cache
missed = record fresh_cache { misses = 1 }

abbrev nothing : Option ByteView
nothing = none
