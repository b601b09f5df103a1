-- ===== src/Peers/Changes.antt =====
-- How peers.go changes its members. `crc` is the checksum that a ring uses, and `dials` says which
-- connections gRPC makes.
use locache.Base.{
  ℕ, ◌++◌, Option, none, some, List, [], ◌∷◌, Bool, true, not, ◌&&◌, ◌||◌, ◌==◌, if◌then◌else◌,
  length,
}
use locache.Base.Words.{add64}
use locache.Base.Str.{Str}
use locache.Base.Map.{Map, lookup, insert, delete}
use locache.ConsistentHash.{Ring, with_replicas}
use locache.ConsistentHash
use locache.Peers.{
  Client, ClientPicker, new_client, parse_addr_from_key, sorted_keys, is_absent, is_text, is_empty,
}

-- The loop of `sameMembers` over the keys of its first map.
unfoldable pub all_members : Map (Unit {0}) → Map (Unit {0}) → Bool
all_members [] b = true
all_members ((k, _) ∷ a) b = not (is_absent (lookup k b)) && all_members a b

unfoldable pub same_members : Map (Unit {0}) → Map (Unit {0}) → Bool
same_members a b = (length a == length b) && all_members a b

unfoldable pub fresh_ring : (Str → ℕ) → ℕ → Ring
fresh_ring crc replicas = ConsistentHash.new crc (with_replicas replicas ∷ [])

-- The loop of `replaceMembership` over the sorted members: the clients that the new map has.
unfoldable pub new_clients : (Str → Bool) → ClientPicker → List Str → Map Client → Map Client
new_clients dials p [] made = made
new_clients dials p (addr ∷ rest) made = new_clients dials p rest (
    if is_text addr p.self_addr then made else elim (lookup addr p.clients) [
      | some existing ↦ insert addr existing made
      | none ↦ elim (new_client (dials addr) addr p.rpc_to) [
        | none ↦ made
        | some client ↦ insert addr client made
      ]
    ])

-- The loop that closes the clients that the new map does not have.
unfoldable pub dropped : Map Client → Map Client → List Client
dropped [] kept = []
dropped ((addr, client) ∷ rest) kept =
    let others = dropped rest kept in
    if is_absent (lookup addr kept) then client ∷ others else others

unfoldable pub replace_membership :
    (Str → ℕ) → (Str → Bool) → Map (Unit {0}) → ClientPicker → ClientPicker
replace_membership crc dials desired p =
    if same_members p.members desired
    then p
    else (let clients = new_clients dials p (sorted_keys desired) [] in
        record p {
          members = desired;
          clients = clients;
          ring = (ConsistentHash.add (sorted_keys desired) (fresh_ring crc p.hash_replicas)).0;
          epoch = add64 p.epoch 1;
          closed_clients = p.closed_clients ++ dropped p.clients clients;
        })

-- The clients after a member was added: none for this node, and none where no connection is made.
unfoldable pub with_client : (Str → Bool) → Str → ClientPicker → Map Client
with_client dials addr p =
    if is_text addr p.self_addr then p.clients else elim (new_client (dials addr) addr p.rpc_to) [
      | none ↦ p.clients
      | some client ↦ insert addr client p.clients
    ]

unfoldable pub add_member : (Str → Bool) → Str → ClientPicker → ClientPicker
add_member dials addr p =
    if is_empty addr || not (is_absent (lookup addr p.members)) then p else record p {
      members = insert addr tt p.members;
      ring = (ConsistentHash.add (addr ∷ []) p.ring).0;
      clients = with_client dials addr p;
      epoch = add64 p.epoch 1;
    }

abbrev pub listed : Option Client → List Client
listed none = []
listed (some c) = c ∷ []

unfoldable pub remove_member : Str → ClientPicker → ClientPicker
remove_member addr p =
    if is_empty addr || (is_text addr p.self_addr || is_absent (lookup addr p.members))
    then p
    else record p {
      members = delete addr p.members;
      ring = (ConsistentHash.remove addr p.ring).0;
      clients = delete addr p.clients;
      epoch = add64 p.epoch 1;
      closed_clients = p.closed_clients ++ listed (lookup addr p.clients);
    }

-- A key and its value in etcd.
abbrev pub Kv : Type 0
Kv = Str × Str

abbrev pub addr_of_kv : Str → Kv → Str
addr_of_kv svc_name (key, []) = parse_addr_from_key key svc_name
addr_of_kv svc_name (key, b ∷ value) = b ∷ value

-- The members that a snapshot names, with those from before.
unfoldable pub desired_members : Str → List Kv → Map (Unit {0}) → Map (Unit {0})
desired_members svc_name [] desired = desired
desired_members svc_name (kv ∷ rest) desired =
    let addr = addr_of_kv svc_name kv in
    desired_members svc_name rest (if is_empty addr then desired else insert addr tt desired)

-- `refreshSnapshot`, for what etcd answers; the next revision is the result.
unfoldable pub refresh_snapshot :
    (Str → ℕ) → (Str → Bool) → List Kv × ℕ → ClientPicker → ClientPicker × ℕ
refresh_snapshot crc dials (kvs, revision) p = (
  replace_membership crc dials (desired_members p.svc_name kvs ((p.self_addr, tt) ∷ [])) p,
  add64 revision 1,
)
