-- ===== src/Rpc/Tests.antt =====
-- Requests at concrete nodes, with a simple gRPC.
use locache.Base.{ℕ, suc, ◌≡◌, refl, none, some, [], ◌∷◌, Bool, true, false}
use locache.Base.Str.{Str, str_dec}
use locache.Base.Map.{lookup}
use locache.Group.State.{
  failed_precondition, Error, not_owner, owner_error, call_error, status_error, root, is_retry,
  is_cache_miss, err, Group, Peers, pure,
}
use locache.Group.Table.{Groups, get_group, set_heap}
use locache.Store.Lru.{new_lru_internal}
use locache.Store.Choice.{single}
use locache.Cache.{Cache}
use locache.Group.Remote.Laws.{World, flapping_peers}
use locache.Peers.{Client}
use locache.Rpc.Client
use locache.Rpc.Server.{map_group_error, connection}
use locache.Rpc.Codes
use locache.Rpc.Codes.{received, tells_move, tells_miss}
use locache.Rpc.Requests
use locache.Rpc.Requests.{IsElsewhere}
use locache.Registry.Registration.{
  Etcd, Registration, register, register_with, put_service, keep_lease,
}
use locache.Rpc.Serving.{Server, begin_start, end_start, stop, default_server_options}
use locache.Rpc.Serving.Lease
use locache.Rpc.Sample.{grpc, grpc-IsGrpc}

requester_sees_example :
    (is_retry (received grpc [] (map_group_error grpc (owner_error not_owner [])))
      ≡ tells_move (root (owner_error not_owner [])))
    × (is_cache_miss (received grpc [] (map_group_error grpc (owner_error not_owner [])))
        ≡ tells_miss (root (owner_error not_owner [])))
requester_sees_example = Codes.requester_sees grpc grpc-IsGrpc [] (owner_error not_owner [])

abbrev name_g : Str
name_g = 103 ∷ []

abbrev cache : Cache
cache = record {
  store = single (
      new_lru_internal
        (record { max_bytes = 10; shard_count = 1; cleanup_interval = 0; on_evicted = false })
        true);
  hits = 0;
  misses = 0;
  closed = false;
}

-- A group whose node owns the key at the next call of the picker or not.
abbrev group : Bool → ℕ → Group World
group mine epoch = record {
  name = name_g;
  main_cache = cache;
  near_cache = none;
  near_ttl = 0;
  expiration = 0;
  closed = false;
  stats = record {
    local_hits = 0;
    local_misses = 0;
    near_hits = 0;
    near_misses = 0;
    peer_hits = 0;
    peer_misses = 0;
    source_loads = 0;
    source_errors = 0;
    source_duration = 0;
    sets = 0;
    deletes = 0;
    invalidation_failures = 0;
  };
  owner_epoch = 0;
  key_states = [];
  states = λ p. record { generation = 0; refs = 0 };
  next_state = 0;
  world = record { mine = mine; epoch = epoch; sent = 0 };
}

abbrev peers : Peers World
peers = flapping_peers (120 ∷ [])

abbrev node : Groups World
node = record {
  table = (name_g, 0) ∷ [];
  heap = λ p. record {
    state = group false 2;
    env = record { clock = pure 0; peers = some peers; getter = none };
  };
  next = 1;
}

node-IsElsewhere : IsElsewhere (97 ∷ []) (120 ∷ []) (node.heap 0) (group true 3)
node-IsElsewhere = record {
  opened = refl;
  picker = peers;
  asked = refl;
  epoch = 2;
  has_peer = true;
  named = refl;
  answer = refl;
}

abbrev client : Client
client = record { addr = 120 ∷ []; rpc_timeout = 3 }

requests_refused_example :
    let gs' = record node {
      heap = set_heap node.heap 0 (record { state = group true 3; env = (node.heap 0).env });
    } in
    (e : Error) × ((is_retry e ≡ true)
      × (Client.get grpc (connection grpc) none 5 (some client) name_g (97 ∷ []) node
          ≡ some (gs', err e))
      × (Client.set grpc (connection grpc) none 5 (some client) name_g (97 ∷ []) (1 ∷ []) node
          ≡ some (gs', err e))
      × (Client.delete_key grpc (connection grpc) none 5 (some client) name_g (97 ∷ []) node
          ≡ some (gs', err e)))
unfolding get_group lookup str_dec
requests_refused_example =
    Requests.requests_refused grpc none 5 client name_g (97 ∷ []) (1 ∷ []) (120 ∷ []) node 0
      (group true 3) grpc-IsGrpc refl node-IsElsewhere

-- An error of a source that lies behind gRPC itself.
source_runs :
    is_retry (
      received grpc [] (map_group_error grpc (call_error (status_error failed_precondition []) [])))
    ≡ true
unfolding root
source_runs =
    (Codes.requester_sees grpc grpc-IsGrpc []
      (call_error (status_error failed_precondition []) [])).0

-- What etcd counts here are the leases that were given back.
abbrev etcd : Etcd ℕ
etcd = record {
  grant = λ ttl w. (w, none, 7);
  put = λ key value lease w. (w, none);
  keep_alive = λ lease w. (w, none);
  revoke = λ lease w. (suc w, none);
}

abbrev server : Server
server = record {
  listen_addr = [];
  advertise_addr = 120 ∷ [];
  svc_name = name_g;
  opts = default_server_options;
  cancelled = false;
  registration = none;
  listening = false;
  stopped = false;
  grpc_stopped = false;
  etcd_closed = false;
}

abbrev started_server : Server
started_server = record server {
  registration = some (record { lease_id = 7; cancelled = false; closed = false });
  listening = true;
}

lease_given_back_example :
    (r : Registration) × ((started_server.registration ≡ some r)
      × (let (w1, s1) = stop etcd none started_server 0 in
          end_start etcd true false none s1 w1 ≡ ((etcd.revoke r.lease_id 0).0, (s1, none)))
      × (let (w2, (s2, _)) = end_start etcd true false none started_server 0 in
          (stop etcd none s2 w2).0 ≡ (etcd.revoke r.lease_id 0).0))
unfolding begin_start register register_with put_service keep_lease
lease_given_back_example =
    Lease.lease_given_back etcd server started_server 0 0 true false none none refl refl
