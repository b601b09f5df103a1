-- ===== src/Node.antt =====
-- One process of the program: a group whose peers are a ClientPicker of peers.go with its clients of
-- client.go, and the net of nodes that serve them by server.go. The picker stands still meanwhile.
pub mod Reach
pub mod Cluster
pub mod Spread
pub mod Calls
pub mod Requests
pub mod ReadWrite
pub mod Deletes
pub mod Panics
mod Tests
use locache.Base.{ℕ, Option, none, some, List, [], ◌∷◌, Bool, true, false, not, ◌||◌, ite}
use locache.Base.Str.{Str, str_dec}
use locache.Base.Map.{Map, lookup}
use locache.Group.State.{Error, Result, ok, err, Group, M, pure, gets, Pick, Peers}
use locache.Group.Table.{Groups}
use locache.Peers.{Client, ClientPicker, Picked, is_nil, targets, pick_owner as pick}
use locache.Rpc.{Grpc, LocacheClient}
use locache.Rpc.Client
use locache.Rpc.Server.{connection}

-- What lies outside a group: the picker, and the state of the nodes that answer.
pub record World (S : Type 0) : Type 0 where
  pub picker : ClientPicker
  pub net : S

-- The results of `PickOwner` as a group tests them.
abbrev pub to_pick : Picked → Pick
to_pick k = record {
  owner = k.owner;
  has_peer = not (is_nil k.peer);
  is_self = k.is_self;
  epoch = k.epoch;
  ok = k.ok;
}

abbrev pub is_err : {A : Type 0} → Result A → Bool
is_err (ok a) = false
is_err (err e) = true

module _ {S : Type 0} where
  abbrev pub on_net : {A : Type 0} → Group (World S) → Option (S × A) → Option (Group (World S) × A)
  on_net g none = none
  on_net g (some (s, a)) = some (record g { world = record (g.world) { net = s } }, a)

  -- A call of the peer that `PickOwner` gave for an address: a nil client panics.
  unfoldable pub by_client : {A : Type 0} → Str → (Client → S → Option (S × A)) → M (World S) A
  by_client owner call g = elim (lookup owner g.world.picker.clients) [
    | none ↦ none
    | some c ↦ on_net g (call c g.world.net)
  ]

  abbrev pub or_failed : Bool → Option (S × Bool) → Option (S × Bool)
  or_failed failed none = none
  or_failed failed (some (s, later)) = some (s, failed || later)

-- `rpc` is the stub of the connection to an address; `deadline` is the context's, and `events` what the
-- select of a wait sees.
module _ {S : Type 0} (grpc : Grpc) (rpc : Str → LocacheClient S) (deadline : Option ℕ) (now : ℕ)
    (events : ℕ × Option Error) where
  -- The calls that `Invalidate` makes, one after the other, and whether one failed.
  unfoldable pub invalidate_each : Str → Str → Map Client → S → Option (S × Bool)
  invalidate_each name key [] s = some (s, false)
  invalidate_each name key ((addr, c) ∷ rest) s =
      elim (Client.invalidate grpc (rpc c.addr) deadline now (some c) name key s) [
        | none ↦ none
        | some (s', r) ↦ or_failed (is_err r) (invalidate_each name key rest s')
      ]

  -- A ClientPicker as the PeerPicker of a group.
  unfoldable pub picker_peers : Peers (World S)
  picker_peers = record {
    pick_owner =
        λ key g. elim (pick key g.world.picker) [ none ↦ none | some k ↦ some (g, to_pick k) ];
    epoch_of = gets (λ g. g.world.picker.epoch);
    invalidate = λ name key except g.
        on_net g (invalidate_each name key (targets except g.world.picker.clients) g.world.net);
    peer_get = λ owner name key.
        by_client owner (λ c. Client.get grpc (rpc c.addr) deadline now (some c) name key);
    peer_set = λ owner name key value.
        by_client owner (λ c. Client.set grpc (rpc c.addr) deadline now (some c) name key value);
    peer_delete = λ owner name key.
        by_client owner (λ c. Client.delete_key grpc (rpc c.addr) deadline now (some c) name key);
    wait_events = pure events;
  }

-- The groups of the nodes, by address.
abbrev pub Net : Type 0 → Type 0
Net W = Str → Groups W

abbrev pub set_node : {W : Type 0} → Net W → Str → Groups W → Net W
set_node s addr gs a = ite (str_dec addr a) gs (s a)

abbrev pub at_node :
    {W A : Type 0} → Str → (Groups W → Option (Groups W × A)) → Net W → Option (Net W × A)
at_node addr m s = elim (m (s addr)) [ none ↦ none | some (gs, a) ↦ some (set_node s addr gs, a) ]

-- A connection to the node at an address, which serves it from its groups.
unfoldable pub connect : {W : Type 0} → Grpc → Str → LocacheClient (Net W)
connect grpc addr = record {
  get = λ deadline name key. at_node addr ((connection grpc).get deadline name key);
  set = λ deadline name key value. at_node addr ((connection grpc).set deadline name key value);
  delete_key =
      λ deadline mark name key. at_node addr ((connection grpc).delete_key deadline mark name key);
}
