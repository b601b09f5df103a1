-- ===== src/Group/Table/Tests.antt =====
-- Groups that come and go, and the theorems about them.
use locache.Base.{ℕ, ◌≡◌, ◌≢◌, refl, Option, none, some, [], ◌∷◌, true, false, arith, ℕ_discrete}
use locache.Base.Words.{gt64, add64}
use locache.Base.Str.{Str, str_dec}
use locache.Base.Map.{lookup, insert, delete}
use locache.Store.Options.{lru}
use locache.Store.Lru.{new_lru, new_lru_internal, default_interval}
use locache.Store.Lru
use locache.Store.Choice.{new_store}
use locache.Store.Choice
use locache.Cache.{CacheOptions, default_cache_options, store_options, new_cache}
use locache.Cache
use locache.Group.State.{M, pure}
use locache.Group.Table.{
  Groups, Instance, with_cache_options, apply_option, apply_options, main_or_new, close, publish,
  new_group, get_group, list_groups, destroy_group, close_each, destroy_all_groups, instance_of,
}
use locache.Group.Table.Laws.{IsTable}
use locache.Group.Table.Ends

-- Everything that these runs compute with.
program : Unit {0}
unfolding str_dec ℕ_discrete lookup insert delete gt64 add64 new_lru new_lru_internal
    default_interval new_store store_options new_cache Cache.close Choice.close Lru.close
    apply_option apply_options main_or_new close publish new_group get_group list_groups
    destroy_group close_each destroy_all_groups
program = tt

abbrev name_g : Str
name_g = 103 ∷ []

abbrev name_h : Str
name_h = 104 ∷ []

abbrev small : CacheOptions
small = record {
  cache_type = some lru;
  max_bytes = 64;
  shard_count = 0;
  cleanup_time = 0;
  on_evicted = false;
}

abbrev no_clock : M (Unit {0}) ℕ
no_clock = pure 0

abbrev table_of : Option (Groups (Unit {0}) × ℕ) → Groups (Unit {0}) → Groups (Unit {0})
table_of none other = other
table_of (some (gs, p)) other = gs

abbrev nobody : Instance (Unit {0})
nobody =
    instance_of [] no_clock none tt
      (record { main_cache = none; near_cache = none; near_ttl = 0; expiration = 0; peers = none })
      (record {
        store = Choice.single (
            new_lru_internal
              (record { max_bytes = 1; shard_count = 1; cleanup_interval = 0; on_evicted = false })
              true);
        hits = 0;
        misses = 0;
        closed = true;
      })

abbrev no_groups : Groups (Unit {0})
no_groups = record { table = []; heap = λ p. nobody; next = 0 }

no_groups-IsTable : IsTable no_groups
unfolding lookup
no_groups-IsTable = record { once = tt; listed = λ j p e. absurd (ground arith) }

make : Str → Groups (Unit {0}) → Groups (Unit {0})
make name gs = table_of (new_group name 0 no_clock none tt (with_cache_options small ∷ []) gs) gs

-- Two groups of one name, one after the other.
one_group : Groups (Unit {0})
one_group = make name_g no_groups

one_group-IsTable : IsTable one_group
unfolding program one_group make
one_group-IsTable =
    (Ends.new_group-get_group name_g 0 no_clock none tt (with_cache_options small ∷ []) no_groups
      one_group 0 no_groups-IsTable refl).0

new_group-get_group_example :
    IsTable (make name_g one_group)
    × (get_group name_g (make name_g one_group) ≡ some 1)
    × ((old : ℕ)
        → get_group name_g one_group ≡ some old
        → ((make name_g one_group).heap old).state.closed ≡ true)
    × ((j : Str) → name_g ≢ j → get_group j (make name_g one_group) ≡ get_group j one_group)
unfolding program one_group make
new_group-get_group_example =
    Ends.new_group-get_group name_g 0 no_clock none tt (with_cache_options small ∷ []) one_group
      (make name_g one_group) 1 one_group-IsTable refl

one_group_goes :
    ((j : Str) → get_group j (destroy_all_groups one_group) ≡ none)
    × ((j : Str) (p : ℕ)
        → get_group j one_group ≡ some p
        → ((destroy_all_groups one_group).heap p).state.closed ≡ true)
one_group_goes = Ends.destroy_all_groups-get_group one_group one_group-IsTable

-- The end of the group that was replaced does not touch the one that replaced it.
table_runs :
    (list_groups (make name_h one_group) ≡ name_h ∷ name_g ∷ [])
    × (get_group name_g (close 0 (make name_g one_group)) ≡ some 1)
    × ((destroy_group name_h one_group).1 ≡ false)
unfolding program one_group make
table_runs = (refl, refl, refl)
