-- ===== src/Group/Tests.antt =====
-- The theorems on groups at concrete groups.
use locache.Base.{ℕ, suc, ◌≡◌, refl, ap, none, some, Bool, [], ◌∷◌, true, false, arith}
use locache.Base.Str.{Str, str_dec}
use locache.Base.Map.{lookup}
use locache.Store.Lru.{Lru, new_lru_internal, default_interval}
use locache.Store.Lru.Spec.{weigh}
use locache.Store.Lru.Invariant.{entries}
use locache.Store.Lru.Runs.{new_lru_internal-IsValid}
use locache.Base.Words.{gt64, add64}
use locache.Store.Choice.{single}
use locache.Store.Choice
use locache.Store.Lru
use locache.Store.Choice.Backing.{backing}
use locache.Cache.{Cache, Value, size}
use locache.Cache
use locache.Group.State.{Group, GroupStats, ok, Peers, pure}
use locache.Group.Local.{enter_epoch, near_key}
use locache.Group.Local.Laws
use locache.Group.Local.{load_source}
use locache.Group.Local.Races
use locache.Group.Local.Races.{alone, overtaken}
use locache.Group.Remote.{get, set}
use locache.Group.Remote.Lone
use locache.Group.Remote.Laws.{World, flapping, about_to_flip}
use locache.Group.Remote
use locache.Group.Remote.Steady.{other_pick}
use locache.Group.Remote.Steady.Near
use locache.Group.Remote.Steady.Dropped
use locache.Group.Local.{delete_local}
use locache.Store.Lru.Writes.{set_with_expiration-IsValid}
use locache.Cache.{view_value}
use locache.Group.Local.Owner.{still}
use locache.Base.Decimal.{decimal, decimal_from}

abbrev key_a : Str
key_a = 97 ∷ []

abbrev lru : Lru Value
lru =
    new_lru_internal
      (record { max_bytes = 10; shard_count = 1; cleanup_interval = 0; on_evicted = false }) true

abbrev cache : Cache
cache = record { store = single lru; hits = 0; misses = 0; closed = false }

abbrev zeros : GroupStats
zeros = record {
  local_hits = 0;
  local_misses = 0;
  near_hits = 0;
  near_misses = 0;
  peer_hits = 0;
  peer_misses = 0;
  source_loads = 0;
  source_errors = 0;
  source_duration = 0;
  sets = 0;
  deletes = 0;
  invalidation_failures = 0;
}

-- A group whose key `a` has a state with one reference, and that last owned keys in epoch 2.
abbrev group : Group World
group = record {
  name = 103 ∷ [];
  main_cache = cache;
  near_cache = none;
  near_ttl = 0;
  expiration = 0;
  closed = false;
  stats = zeros;
  owner_epoch = 2;
  key_states = (key_a, 0) ∷ [];
  states = λ p. record { generation = 5; refs = 1 };
  next_state = 1;
  world = record { mine = true; epoch = 3; sent = 0 };
}

get-enter_epoch_example :
    (c : Cache) × (Cache.get key_a 100 (enter_epoch 3 group).main_cache ≡ some (c, none))
unfolding backing
get-enter_epoch_example =
    Laws.get-enter_epoch key_a 100 3 group lru refl refl (λ e. omega (arith, e))
      (λ e. omega (arith, e))

set_lost_example :
    (g' : Group World) × ((set (flapping (110 ∷ [])) key_a (1 ∷ []) (about_to_flip group 3)
        ≡ some (g', ok tt))
      × ((g'.stats.sets ≡ add64 0 1) × (g'.main_cache ≡ cache) × (g'.world.sent ≡ 0)))
set_lost_example = Remote.Laws.set_lost 110 97 [] [] 1 [] group 3

write_wins_example :
    let source = overtaken {W = World} 5 (1 ∷ 2 ∷ []) (9 ∷ []) in
    (g' : Group World) × ((load_source (alone 5 (some source)) source key_a 0 0 group
        ≡ some (g', ok (record { b = 1 ∷ 2 ∷ [] })))
      × (c : Cache) × ((Cache.add key_a (record { b = 1 ∷ 2 ∷ [] }) 5 5 group.main_cache ≡ some c)
          × (Cache.get key_a 5 c ≡ some (g'.main_cache, some (record { b = 1 ∷ 2 ∷ [] })))))
unfolding lookup str_dec backing gt64 new_lru_internal default_interval entries weigh
write_wins_example =
    Races.write_wins 5 key_a (1 ∷ 2 ∷ []) (9 ∷ []) 0 0 group lru refl refl refl refl refl
      (new_lru_internal-IsValid size
        (record { max_bytes = 10; shard_count = 1; cleanup_interval = 0; on_evicted = false }) true)
      (omega arith) (omega arith) (omega arith)

get-set_example :
    (g' g'' : Group World) × ((set (alone 5 none) key_a (1 ∷ 2 ∷ []) group ≡ some (g', ok tt))
      × (get (alone 5 none) key_a g' ≡ some (g'', ok (record { b = 1 ∷ 2 ∷ [] }))))
unfolding backing gt64 new_lru_internal default_interval entries weigh
get-set_example =
    Lone.get-set 5 none 97 1 [] (2 ∷ []) group lru refl refl refl refl
      (new_lru_internal-IsValid size
        (record { max_bytes = 10; shard_count = 1; cleanup_interval = 0; on_evicted = false }) true)
      (omega arith) (omega arith) (omega arith)

-- Node `n` owns every key; what lies outside is the number of requests to get one.
abbrev counting_peers : Peers ℕ
counting_peers = record {
  pick_owner = λ key g. some (g, other_pick (110 ∷ []) 3);
  epoch_of = pure 3;
  invalidate = λ name key except. pure false;
  peer_get = λ at name key g. some (record g { world = suc g.world }, ok (7 ∷ []));
  peer_set = λ at name key value. pure (ok tt);
  peer_delete = λ at name key. pure (ok true);
  wait_events = pure (0, none);
}

abbrev near_group : Group ℕ
near_group = record {
  name = 103 ∷ [];
  main_cache = cache;
  near_cache = some cache;
  near_ttl = 60;
  expiration = 0;
  closed = false;
  stats = zeros;
  owner_epoch = 2;
  key_states = [];
  states = λ p. record { generation = 0; refs = 0 };
  next_state = 0;
  world = 0;
}

get_once_example :
    let env = still 5 (some counting_peers) none in
    (g' g'' : Group ℕ) × ((get env key_a near_group ≡ some (g', ok (record { b = 7 ∷ [] })))
      × (g'.world ≡ 1)
      × (get env key_a g' ≡ some (g'', ok (record { b = 7 ∷ [] })))
      × (g''.world ≡ 1))
unfolding near_key decimal decimal_from backing gt64 new_lru_internal default_interval entries weigh
    lookup str_dec Cache.get add64 Choice.get Lru.get Lru.find_elem Cache.counted
get_once_example =
    Near.get_once 5 none counting_peers key_a (110 ∷ []) 3 (λ n. Unit {0}) refl (λ h e. refl) 97 []
      (7 ∷ []) near_group 1 cache (record cache { misses = 1 }) lru refl refl tt refl refl
      (λ h e. ap (λ n. some (record h { world = suc n }, ok (7 ∷ []))) e) tt (omega arith)
      (omega arith) refl refl
      (new_lru_internal-IsValid size
        (record { max_bytes = 10; shard_count = 1; cleanup_interval = 0; on_evicted = false }) true)
      (omega arith) (omega arith) (omega arith)

-- A near cache with an old copy of the key.
abbrev stale_lru : Lru Value
stale_lru =
    Lru.set_with_expiration size (near_key 3 key_a) (some (view_value (record { b = 9 ∷ [] }))) 60 0
      0 lru

abbrev stale_group : Group ℕ
stale_group = record near_group { near_cache = some (record cache { store = single stale_lru }) }

get-delete_local_example :
    let env = still 5 (some counting_peers) none in
    (h g' : Group ℕ) × (removed : Bool) × ((delete_local env key_a stale_group ≡ some (h, removed))
      × (get env key_a h ≡ some (g', ok (record { b = 7 ∷ [] })))
      × (g'.world ≡ 1))
unfolding backing
get-delete_local_example =
    Dropped.get-delete_local 5 none counting_peers key_a (110 ∷ []) 3 (λ n. Unit {0}) refl
      (λ h e. refl) 97 [] (7 ∷ []) stale_group 1 (record cache { store = single stale_lru })
      stale_lru refl refl tt (λ h e. refl)
      (λ h e. ap (λ n. some (record h { world = suc n }, ok (7 ∷ []))) e) tt refl refl refl
      (set_with_expiration-IsValid size (near_key 3 key_a)
        (some (view_value (record { b = 9 ∷ [] }))) 60 0 0 lru
        (new_lru_internal-IsValid size
          (record { max_bytes = 10; shard_count = 1; cleanup_interval = 0; on_evicted = false })
          true))
      (lru, refl)
