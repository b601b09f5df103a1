-- ===== src/Node/Tests.antt =====
-- A cluster of two nodes, whose pickers are those of peers.go.
use locache.Base.{ℕ, ◌≡◌, ◌≢◌, refl, Option, none, some, [], ◌∷◌, true, false, arith, ◌*◌}
use locache.Base.Words.{gt64}
use locache.Base.Str.{Str, str_dec}
use locache.Base.Map.{lookup}
use locache.Store.Lru.{Lru, new_lru_internal, default_interval}
use locache.Store.Lru.Spec.{weigh}
use locache.Store.Lru.Invariant.{entries}
use locache.Store.Lru.Runs.{new_lru_internal-IsValid}
use locache.Store.Choice.{single}
use locache.Store.Choice.Backing.{backing}
use locache.Cache.{Cache, Value, size}
use locache.Group.State.{is_cache_miss, err, unknown, Error, status_error, err, ok, Group, Env}
use locache.Group.Local.{enter_epoch}
use locache.Group.Local.Owner.{still}
use locache.Group.Remote.{get, set, delete_key}
use locache.Group.Table.{Groups, get_group}
use locache.Peers.{Client, ClientPicker, close, second, client_peer}
use locache.Peers.Picks.Closed.{close-IsValid}
use locache.Peers.Sample.{
  program, sum, node_y, picker, other_picker, picker-IsValid, other_picker-IsValid,
}
use locache.Rpc.{LocacheClient}
use locache.Rpc.Sample.{grpc, grpc-IsGrpc}
use locache.Node.{World, Net, connect, picker_peers}
use locache.Node.Cluster.{IsServing}
use locache.Node.Spread.{IsCalm}
use locache.Node.Requests.{IsAsking}
use locache.Node.ReadWrite
use locache.Node.Deletes
use locache.Node.Panics
use locache.Node.ReadWrite.{with_net}

abbrev unreachable : Str → LocacheClient (Unit {0})
unreachable addr = record {
  get = λ deadline name key s. some (s, err (status_error unknown []));
  set = λ deadline name key value s. some (s, err (status_error unknown []));
  delete_key = λ deadline mark name key s. some (s, err (status_error unknown []));
}

abbrev events : ℕ × Option Error
events = (0, none)

abbrev name_g : Str
name_g = 103 ∷ []

abbrev key_9 : Str
key_9 = 9 ∷ []

lru : Lru Value
lru =
    new_lru_internal
      (record { max_bytes = 10; shard_count = 1; cleanup_interval = 0; on_evicted = false }) true

abbrev cache : Cache
cache = record { store = single lru; hits = 0; misses = 0; closed = false }

abbrev group : {W : Type 0} → W → Group W
group w = record {
  name = name_g;
  main_cache = cache;
  near_cache = none;
  near_ttl = 0;
  expiration = 0;
  closed = false;
  stats = record {
    local_hits = 0;
    local_misses = 0;
    near_hits = 0;
    near_misses = 0;
    peer_hits = 0;
    peer_misses = 0;
    source_loads = 0;
    source_errors = 0;
    source_duration = 0;
    sets = 0;
    deletes = 0;
    invalidation_failures = 0;
  };
  owner_epoch = 0;
  key_states = [];
  states = λ p. record { generation = 0; refs = 0 };
  next_state = 0;
  world = w;
}

-- The node of a picker has one group; no other node has any.
abbrev owner_node : ClientPicker → Groups (World (Unit {0}))
owner_node p = record {
  table = (name_g, 0) ∷ [];
  heap = λ q. record {
    state = group (record { picker = p; net = tt });
    env = still 5 (some (picker_peers grpc unreachable none 5 events)) none;
  };
  next = 1;
}

abbrev bare_node : ClientPicker → Groups (World (Unit {0}))
bare_node p = record { table = []; heap = (owner_node p).heap; next = 0 }

abbrev net : Net (World (Unit {0}))
net addr = elim (str_dec addr node_y) [
  | yes _ ↦ owner_node other_picker
  | no _ ↦ bare_node other_picker
]

abbrev asker : Group (World (Net (World (Unit {0}))))
asker = group (record { picker = picker; net = net })

abbrev client_y : Client
client_y = record { addr = node_y; rpc_timeout = 3 * second }

asker_asks : IsAsking sum 9 [] asker
unfolding program picker
asker_asks = record {
  opened = refl;
  near = refl;
  valid = picker-IsValid;
  answer = record {
    owner = node_y;
    peer = client_peer (some client_y);
    is_self = false;
    epoch = picker.epoch;
    ok = true;
  };
  picked = refl;
  other = refl;
  client = client_y;
  has = refl;
}

node_y-IsServing : IsServing grpc unreachable none 5 events sum none name_g (net node_y) 0
unfolding program picker get_group gt64
node_y-IsServing = record {
  found = refl;
  calls = refl;
  opened = refl;
  near = refl;
  forever = refl;
  valid = other_picker-IsValid;
}

bare_node-IsCalm : (addr : Str) → addr ≢ node_y → IsCalm name_g key_9 (net addr)
unfolding get_group lookup
bare_node-IsCalm addr away =
    elim (str_dec addr node_y)
      as (λ d.
        IsCalm name_g key_9
          (elim d [ yes _ ↦ owner_node other_picker | no _ ↦ bare_node other_picker ])) [
            | yes e ↦ absurd (away e)
            | no _ ↦ record {
              near = λ q e. absurd (ground (arith, e));
              serves = λ q e. absurd (ground (arith, e));
            }
          ]

cluster : Env (World (Net (World (Unit {0}))))
cluster = still 5 (some (picker_peers grpc (connect grpc) none 5 events)) none

get-set_cluster_example :
    (g' r' : Group (World (Net (World (Unit {0}))))) × ((set cluster key_9 (1 ∷ 2 ∷ []) asker
        ≡ some (g', ok tt))
      × (get cluster key_9 (with_net asker g'.world.net)
          ≡ some (r', ok (record { b = 1 ∷ 2 ∷ [] }))))
unfolding program picker other_picker backing gt64 new_lru_internal default_interval entries weigh
    cluster enter_epoch asker_asks lru
get-set_cluster_example =
    ReadWrite.get-set_cluster grpc unreachable none 5 events sum 9 [] asker asker none none none 0 1
      (2 ∷ []) lru asker_asks asker_asks node_y-IsServing refl refl (refl, λ j. ground arith)
      (refl, λ j. refl) bare_node-IsCalm (lru, refl) refl refl
      (new_lru_internal-IsValid size
        (record { max_bytes = 10; shard_count = 1; cleanup_interval = 0; on_evicted = false }) true)
      (omega arith) (omega arith) (omega arith)

get-delete_cluster_example :
    (g' r' : Group (World (Net (World (Unit {0}))))) × (e : Error) × ((delete_key cluster key_9
          asker
        ≡ some (g', ok tt))
      × (get cluster key_9 (with_net asker g'.world.net) ≡ some (r', err e))
      × (is_cache_miss e ≡ true))
unfolding program picker other_picker backing gt64 new_lru_internal default_interval entries weigh
    cluster enter_epoch asker_asks lru
get-delete_cluster_example =
    Deletes.get-delete_cluster grpc unreachable none 5 events sum 9 [] asker asker none none 0 lru
      grpc-IsGrpc asker_asks asker_asks node_y-IsServing refl refl (refl, λ j. ground arith)
      (refl, λ j. refl) bare_node-IsCalm (lru, refl) refl refl
      (new_lru_internal-IsValid size
        (record { max_bytes = 10; shard_count = 1; cleanup_interval = 0; on_evicted = false }) true)

-- The node of the picker after its Close.
shut_picker : ClientPicker
unfolding program picker
shut_picker = (close true (λ c. false) false picker).0

shut_asker : Group (World (Net (World (Unit {0}))))
shut_asker = group (record { picker = shut_picker; net = net })

missing_client_panics_example :
    (get cluster key_9 shut_asker ≡ none)
    × (set cluster key_9 (1 ∷ []) shut_asker ≡ none)
    × (delete_key cluster key_9 shut_asker ≡ none)
unfolding program picker shut_picker shut_asker cluster
missing_client_panics_example =
    Panics.missing_client_panics grpc (connect grpc) none 5 events sum 9 [] shut_asker none
      (record {
        owner = node_y;
        peer = client_peer none;
        is_self = false;
        epoch = picker.epoch;
        ok = true;
      })
      1 [] refl refl (close-IsValid sum true (λ c. false) false picker picker-IsValid refl) refl
      refl refl
