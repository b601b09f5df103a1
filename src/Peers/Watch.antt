-- ===== src/Peers/Watch.antt =====
-- The watch of peers.go, for what etcd sends, and the constructor of a picker.
pub mod Laws
pub mod Epochs
pub mod Keys
use locache.Base.{ℕ, ◌*◌, Option, none, some, List, [], ◌∷◌, Bool, true, false, leb, if◌then◌else◌}
use locache.Base.Words.{add64, gt64}
use locache.Base.Str.{Str}
use locache.ConsistentHash
use locache.Registry.{Error, Result, ok, err}
use locache.Base.Map.{insert}
use locache.Peers.{parse_addr_from_key, ClientPicker, is_empty, second}
use locache.Peers.Changes.{Kv, addr_of_kv, add_member, remove_member, refresh_snapshot, fresh_ring}

-- An event of a watch; a deleted key comes with what it had before, where etcd knows it.
pub data Event : Type 0 where
  put_event : Kv → Event
  delete_event : Str → Option Str → Event
  other_event : Event

pub record Response : Type 0 where
  pub failed : Bool
  pub events : List Event
  pub revision : ℕ

-- One turn of the outer loop: what the watch sends until its channel closes, whether the picker was
-- closed by then, and the snapshot that is fetched after it, if etcd answers.
pub record Round : Type 0 where
  pub responses : List Response
  pub cancelled : Bool
  pub snapshot : Option (List Kv × ℕ)

-- The address that a deletion names.
abbrev pub deleted_addr : Str → Str → Option Str → Str
deleted_addr svc_name key none = parse_addr_from_key key svc_name
deleted_addr svc_name key (some previous) =
    let addr = parse_addr_from_key key svc_name in if is_empty addr then previous else addr

unfoldable pub handle : (Str → Bool) → Event → ClientPicker → ClientPicker
handle dials (put_event kv) p = add_member dials (addr_of_kv p.svc_name kv) p
handle dials (delete_event key previous) p = remove_member (deleted_addr p.svc_name key previous) p
handle dials other_event p = p

unfoldable pub handle_all : (Str → Bool) → List Event → ClientPicker → ClientPicker
handle_all dials [] p = p
handle_all dials (e ∷ rest) p = handle_all dials rest (handle dials e p)

unfoldable pub next_revision : ℕ → ℕ → ℕ
next_revision revision rev = if gt64 rev revision then rev else add64 revision 1

-- The inner loop, which a failed response breaks.
unfoldable pub consume : (Str → Bool) → List Response → ClientPicker × ℕ → ClientPicker × ℕ
consume dials [] st = st
consume dials (r ∷ rest) (p, rev) = elim r.failed [
  | true ↦ (p, rev)
  | false ↦ consume dials rest (handle_all dials r.events p, next_revision r.revision rev)
]

-- `watchServiceChanges`, for as many rounds as it makes before the picker is closed.
unfoldable pub watch : (Str → ℕ) → (Str → Bool) → List Round → ClientPicker × ℕ → ClientPicker × ℕ
watch crc dials [] st = st
watch crc dials (round ∷ rest) st = elim round.cancelled [
  | true ↦ consume dials round.responses st
  | false ↦ elim round.snapshot [
    | none ↦ watch crc dials rest (consume dials round.responses st)
    | some answer ↦
        watch crc dials rest
          (refresh_snapshot crc dials answer (consume dials round.responses st).0)
  ]
]

pub data PickerOption : Type 0 where
  with_service_name : Str → PickerOption
  with_endpoints : List Str → PickerOption
  with_dial_timeout with_rpc_timeout with_hash_replicas : ℕ → PickerOption

unfoldable pub apply_option : (Str → ℕ) → PickerOption → ClientPicker → ClientPicker
apply_option crc (with_service_name name) p =
    if is_empty name then p else record p { svc_name = name }
apply_option crc (with_endpoints []) p = p
apply_option crc (with_endpoints (e ∷ rest)) p = record p { endpoints = e ∷ rest }
apply_option crc (with_dial_timeout timeout) p =
    if gt64 timeout 0 then record p { dial_to = timeout } else p
apply_option crc (with_rpc_timeout timeout) p =
    if gt64 timeout 0 then record p { rpc_to = timeout } else p
apply_option crc (with_hash_replicas replicas) p =
    if gt64 replicas 0
    then record p { hash_replicas = replicas; ring = fresh_ring crc replicas }
    else p

unfoldable pub apply_options : (Str → ℕ) → List PickerOption → ClientPicker → ClientPicker
apply_options crc [] p = p
apply_options crc (o ∷ rest) p = apply_options crc rest (apply_option crc o p)

-- "locache", "localhost:2379", and the defaults of registry.DefaultConfig.
abbrev pub default_svc_name : Str
default_svc_name = b'l' ∷ b'o' ∷ b'c' ∷ b'a' ∷ b'c' ∷ b'h' ∷ b'e' ∷ []

abbrev pub default_endpoint : Str
default_endpoint =
    b'l' ∷ b'o' ∷ b'c' ∷ b'a' ∷ b'l' ∷ b'h' ∷ b'o' ∷ b's' ∷ b't' ∷ b':' ∷ b'2' ∷ b'3' ∷ b'7' ∷ b'9'
    ∷ []

unfoldable pub bare_picker : (Str → ℕ) → Str → ClientPicker
bare_picker crc self = record {
  self_addr = self;
  svc_name = default_svc_name;
  ring = ConsistentHash.new crc [];
  members = [];
  clients = [];
  endpoints = default_endpoint ∷ [];
  dial_to = 5 * second;
  rpc_to = 3 * second;
  hash_replicas = 100;
  epoch = 0;
  closed = false;
  closed_clients = [];
}

-- This node is a member before etcd knows it.
unfoldable pub with_self : ClientPicker → ClientPicker
with_self p = record p {
  members = insert p.self_addr tt p.members;
  ring = (ConsistentHash.add (p.self_addr ∷ []) p.ring).0;
  epoch = 1;
}

-- Why there is no picker: its address, the etcd client, or the first snapshot.
pub data PickerError : Type 0 where
  address_error : Error → PickerError
  etcd_client_error snapshot_error : PickerError

pub data PickerResult : Type 0 where
  made : ClientPicker × ℕ → PickerResult
  failed_with : PickerError → PickerResult

-- `NewClientPicker`, for the normalised address, whether there is an etcd client, and the first
-- snapshot, if etcd answers; with the revision that the watch starts at.
unfoldable pub new_client_picker :
    (Str → ℕ)
    → (Str → Bool)
    → Result Str
    → Bool
    → Option (List Kv × ℕ)
    → List PickerOption
    → PickerResult
new_client_picker crc dials (err e) connected snapshot options = failed_with (address_error e)
new_client_picker crc dials (ok self) false snapshot options = failed_with etcd_client_error
new_client_picker crc dials (ok self) true none options = failed_with snapshot_error
new_client_picker crc dials (ok self) true (some answer) options = made (
    refresh_snapshot crc dials answer
      (with_self (apply_options crc options (bare_picker crc self))))
