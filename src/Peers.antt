-- ===== src/Peers.antt =====
-- peers.go: ClientPicker, the members of the service and the clients to them. A method holds the
-- lock throughout. The checksum of the ring, the connections of gRPC and what etcd answers are
-- parameters.
pub mod Changes
pub mod Dialled
pub mod Members
pub mod Invariant
pub mod Replace
pub mod Watch
pub mod Picks
pub mod Sample
mod Tests
use locache.Base.{
  ℕ, zero, suc, ◌+◌, ◌*◌, ◌^◌, Option, none, some, List, [], ◌∷◌, ◌++◌, map, Bool, true, false, not,
  ◌&&◌, ◌||◌, ◌==◌, ltb, if◌then◌else◌, ite, length,
}
use locache.Base.Words.{add64, gt64}
use locache.Base.Str.{Str, str_dec}
use locache.Base.Map.{Map, lookup, insert, delete}
use locache.ConsistentHash.{Ring, with_replicas}
use locache.ConsistentHash
use locache.ConsistentHash.Order.{sort_strings}
use locache.Registry.{service_prefix}

-- The client of a peer, from client.go, but for its connection.
pub record Client : Type 0 where
  pub addr : Str
  pub rpc_timeout : ℕ

-- time.Second.
abbrev pub second : ℕ
second = 10 ^ 9

-- `NewClient` of client.go, where gRPC makes a connection or fails.
unfoldable pub new_client : Bool → Str → ℕ → Option Client
new_client connected addr timeout =
    if connected
    then some (record { addr = addr; rpc_timeout = if gt64 timeout 0 then timeout else 3 * second })
    else none

-- `closed_clients` lists the clients that were closed so far.
pub record ClientPicker : Type 0 where
  pub self_addr : Str
  pub svc_name : Str
  pub ring : Ring
  pub members : Map (Unit {0})
  pub clients : Map Client
  pub endpoints : List Str
  pub dial_to : ℕ
  pub rpc_to : ℕ
  pub hash_replicas : ℕ
  pub epoch : ℕ
  pub closed : Bool
  pub closed_clients : List Client

abbrev pub is_absent {ℓ} : {A : Type ℓ} → Option A → Bool
is_absent none = true
is_absent (some a) = false

abbrev pub is_text : Str → Str → Bool
is_text s t = ite (str_dec s t) true false

abbrev pub is_empty : Str → Bool
is_empty [] = true
is_empty (b ∷ s) = false

-- key[:len(prefix)] == prefix, and what follows, which must not be empty.
unfoldable pub after_prefix : Str → Str → Str
after_prefix [] rest = rest
after_prefix (b ∷ prefix) [] = []
after_prefix (b ∷ prefix) (c ∷ key) = if b == c then after_prefix prefix key else []

unfoldable pub parse_addr_from_key : Str → Str → Str
parse_addr_from_key key svc_name = after_prefix (service_prefix svc_name) key

unfoldable pub sorted_keys : Map (Unit {0}) → List Str
sorted_keys m = sort_strings (map (λ e. e.0) m)

-- A value of the interface `Peer`: nil, or a `*Client`, which can be a nil pointer.
pub data Peer : Type 0 where
  nil_peer : Peer
  client_peer : Option Client → Peer

-- The test `peer == nil`.
abbrev pub is_nil : Peer → Bool
is_nil nil_peer = true
is_nil (client_peer c) = false

pub record Picked : Type 0 where
  pub owner : Str
  pub peer : Peer
  pub is_self : Bool
  pub epoch : ℕ
  pub ok : Bool

unfoldable pub picked_for : ClientPicker → Str → Picked
picked_for p owner =
    if is_empty owner
    then record { owner = []; peer = nil_peer; is_self = false; epoch = p.epoch; ok = false }
    else if is_text owner p.self_addr
    then record { owner = owner; peer = nil_peer; is_self = true; epoch = p.epoch; ok = true }
    else record {
      owner = owner;
      peer = client_peer (lookup owner p.clients);
      is_self = false;
      epoch = p.epoch;
      ok = true;
    }

-- A panic of the ring has no result.
unfoldable pub pick_owner : Str → ClientPicker → Option Picked
pick_owner key p = elim (ConsistentHash.get key p.ring) [
  | none ↦ none
  | some owner ↦ some (picked_for p owner)
]

-- The clients that `Invalidate` calls: all but the owner's.
unfoldable pub targets : Str → Map Client → Map Client
targets except [] = []
targets except ((addr, client) ∷ rest) =
    let others = targets except rest in
    if is_text addr except then others else (addr, client) ∷ others

-- The addresses whose call failed; errors.Join of none is nil.
unfoldable pub failures : (Client → Bool) → Map Client → List Str
failures fails [] = []
failures fails ((addr, client) ∷ rest) =
    let others = failures fails rest in if fails client then addr ∷ others else others

unfoldable pub invalidate : (Client → Bool) → Str → ClientPicker → List Str
invalidate fails except p = failures fails (targets except p.clients)

unfoldable pub members_of : ClientPicker → List Str
members_of p = sorted_keys p.members

abbrev pub values : Map Client → List Client
values [] = []
values ((addr, client) ∷ rest) = client ∷ values rest

-- What `Close` can report.
pub data CloseError : Type 0 where
  watch_timeout etcd_close : CloseError
  client_close : Client → CloseError

-- `closeErr` is only set where it is nil.
abbrev or_else : Option CloseError → Option CloseError → Option CloseError
or_else none later = later
or_else (some e) later = some e

-- The loop that closes the clients.
unfoldable pub close_clients : (Client → Bool) → Map Client → Option CloseError → Option CloseError
close_clients fails [] e = e
close_clients fails ((addr, client) ∷ rest) e =
    close_clients fails rest (or_else e (if fails client then some (client_close client) else none))

-- `Close`, for whether the watch stops in time, and which of the clients and the etcd client fail to
-- close.
unfoldable pub close :
    Bool → (Client → Bool) → Bool → ClientPicker → ClientPicker × Option CloseError
close stopped fails etcd_fails p = if p.closed then (p, none) else (
  record p { clients = []; closed_clients = p.closed_clients ++ values p.clients; closed = true },
  or_else (close_clients fails p.clients (if stopped then none else some watch_timeout))
      (if etcd_fails then some etcd_close else none),
)
