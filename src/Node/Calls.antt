-- ===== src/Node/Calls.antt =====
-- The calls of a peer of peers.go, as the server of a node answers them.
use locache.Base.{
  ℕ, ◌≡◌, ◌≢◌, refl, sym, ◌∙◌, ap, subst, Option, none, some, [], ◌∷◌, Bool, true, false, if_pos,
  if_neg, All, if◌then◌else◌,
}
use locache.Base.Str.{Str, str_dec}
use locache.Base.Map.{Map, lookup}
use locache.Group.State.{err, Error, Result, ok, Group, Peers}
use locache.Group.Table.{Groups}
use locache.Rpc.Codes.{received}
use locache.Peers.{Client, targets}
use locache.Peers.Dialled.{IsDialled}
use locache.Rpc.{Grpc}
use locache.Rpc.Client
use locache.Rpc.Server
use locache.Node.{
  World, Net, set_node, at_node, connect, on_net, by_client, invalidate_each, picker_peers,
}

-- No request to drop a copy goes to the owner.
pub targets-IsDialled :
    (owner : Str) (m : Map Client)
    → IsDialled m
    → All (λ (e : Str × Client). e.1.addr ≢ owner) (targets owner m)
unfolding targets
targets-IsDialled owner [] h = tt
targets-IsDialled owner ((addr, d) ∷ m) h = elim (str_dec addr owner) [
  | yes same ↦
      subst Away (sym (ap rest (if_pos (str_dec addr owner) same true false)))
        (targets-IsDialled owner m h.1)
  | no other ↦
      subst Away (sym (ap rest (if_neg (str_dec addr owner) other true false)))
        ((λ e. other (sym h.0 ∙ e)), targets-IsDialled owner m h.1)
]
  where
    Away : Map Client → Type 0
    Away l = All (λ (e : Str × Client). e.1.addr ≢ owner) l

    rest : Bool → Map Client
    rest b = if b then targets owner m else (addr, d) ∷ targets owner m

-- A call of the peer at an address where the picker has a client.
module _ {S A : Type 0} (owner : Str) (call : Client → S → Option (S × A)) where
  by_client_reaches :
      (h : Group (World S)) (c : Client) (s s' : S) (a : A)
      → lookup owner h.world.picker.clients ≡ some c
      → h.world.net ≡ s
      → call c s ≡ some (s', a)
      → by_client owner call h ≡ some (record h { world = record (h.world) { net = s' } }, a)
  unfolding by_client
  by_client_reaches h c s s' a has here done =
      ap (λ o. elim o [ none ↦ none | some d ↦ on_net h (call d h.world.net) ]) has
      ∙ ap (on_net h) (ap (call c) here ∙ done)

-- The answer of a node, with what it left of its groups.
abbrev put_back :
    {W A : Type 0} → Grpc → Str → Net W → Option (Groups W × Result A) → Option (Net W × Result A)
put_back grpc owner s o = elim (Server.over_wire grpc o) [
  | none ↦ none
  | some (gs, a) ↦ some (set_node s owner gs, a)
]

module _ {W : Type 0} (grpc : Grpc) (deadline : Option ℕ) (now : ℕ) (events : ℕ × Option Error)
    (k : ℕ) (key : Str) where
  abbrev pub elsewhere : Peers (World (Net W))
  elsewhere = picker_peers grpc (connect grpc) deadline now events

  -- The calls of the peer at the owner's address.
  pub peer_set_at :
      (name owner value : Str) (c : Client) (h : Group (World (Net W))) (gs' : Groups W)
      → lookup owner h.world.picker.clients ≡ some c
      → c.addr ≡ owner
      → Server.set grpc name (k ∷ key) value (h.world.net owner) ≡ some (gs', ok value)
      → elsewhere.peer_set owner name (k ∷ key) value h
        ≡ some
            (record h { world = record (h.world) { net = set_node h.world.net owner gs' } }, ok tt)
  unfolding picker_peers Client.set connect
  peer_set_at name owner value c h gs' has here done =
      by_client_reaches owner
        (λ c'. Client.set grpc (connect grpc c'.addr) deadline now (some c') name (k ∷ key) value) h
        c h.world.net _ (ok tt) has refl
        (ap
            (λ addr.
              Client.answered grpc c (λ _. tt)
                (at_node addr
                  (λ gs. Server.over_wire grpc (Server.set grpc name (k ∷ key) value gs))
                  h.world.net))
            here
          ∙ ap (λ o. Client.answered grpc c (λ _. tt) (put_back grpc owner h.world.net o)) done)

  pub peer_get_at :
      (name owner value : Str) (c : Client) (h : Group (World (Net W))) (gs' : Groups W)
      → lookup owner h.world.picker.clients ≡ some c
      → c.addr ≡ owner
      → Server.get grpc name (k ∷ key) (h.world.net owner) ≡ some (gs', ok value)
      → elsewhere.peer_get owner name (k ∷ key) h
        ≡ some (
          record h { world = record (h.world) { net = set_node h.world.net owner gs' } },
          ok value,
        )
  unfolding picker_peers Client.get connect
  peer_get_at name owner value c h gs' has here done =
      by_client_reaches owner
        (λ c'. Client.get grpc (connect grpc c'.addr) deadline now (some c') name (k ∷ key)) h c
        h.world.net _ (ok value) has refl
        (ap
            (λ addr.
              Client.answered grpc c (λ b. b)
                (at_node addr (λ gs. Server.over_wire grpc (Server.get grpc name (k ∷ key) gs))
                  h.world.net))
            here
          ∙ ap (λ o. Client.answered grpc c (λ b. b) (put_back grpc owner h.world.net o)) done)

  pub peer_get_fails :
      (name owner : Str) (e : Error) (c : Client) (h : Group (World (Net W))) (gs' : Groups W)
      → lookup owner h.world.picker.clients ≡ some c
      → c.addr ≡ owner
      → Server.get grpc name (k ∷ key) (h.world.net owner) ≡ some (gs', err e)
      → elsewhere.peer_get owner name (k ∷ key) h
        ≡ some (
          record h { world = record (h.world) { net = set_node h.world.net owner gs' } },
          err (received grpc c.addr e),
        )
  unfolding picker_peers Client.get connect
  peer_get_fails name owner e c h gs' has here done =
      by_client_reaches owner
        (λ c'. Client.get grpc (connect grpc c'.addr) deadline now (some c') name (k ∷ key)) h c
        h.world.net _ _ has refl
        (ap
            (λ addr.
              Client.answered grpc c (λ b. b)
                (at_node addr (λ gs. Server.over_wire grpc (Server.get grpc name (k ∷ key) gs))
                  h.world.net))
            here
          ∙ ap (λ o. Client.answered grpc c (λ b. b) (put_back grpc owner h.world.net o)) done)

  pub peer_delete_at :
      (name owner : Str) (removed : Bool) (c : Client) (h : Group (World (Net W))) (gs' : Groups W)
      → lookup owner h.world.picker.clients ≡ some c
      → c.addr ≡ owner
      → Server.delete_key grpc false name (k ∷ key) (h.world.net owner) ≡ some (gs', ok removed)
      → elsewhere.peer_delete owner name (k ∷ key) h
        ≡ some (
          record h { world = record (h.world) { net = set_node h.world.net owner gs' } },
          ok removed,
        )
  unfolding picker_peers Client.delete_key connect
  peer_delete_at name owner removed c h gs' has here done =
      by_client_reaches owner
        (λ c'. Client.delete_key grpc (connect grpc c'.addr) deadline now (some c') name (k ∷ key))
        h c h.world.net _ (ok removed) has refl
        (ap
            (λ addr.
              Client.answered grpc c (λ b. b)
                (at_node addr
                  (λ gs. Server.over_wire grpc (Server.delete_key grpc false name (k ∷ key) gs))
                  h.world.net))
            here
          ∙ ap (λ o. Client.answered grpc c (λ b. b) (put_back grpc owner h.world.net o)) done)

  pub invalidate_at :
      (owner : Str) (h : Group (World (Net W))) (w : World (Net W)) (name : Str) (s' : Net W)
      (failed : Bool)
      → h.world ≡ w
      → h.name ≡ name
      → invalidate_each grpc
          (connect grpc)
          deadline
          now
          events
          name
          (k ∷ key)
          (targets owner w.picker.clients)
          w.net
        ≡ some (s', failed)
      → elsewhere.invalidate h.name (k ∷ key) owner h
        ≡ some (record h { world = record w { net = s' } }, failed)
  unfolding picker_peers
  invalidate_at owner h w name s' failed same named done =
      ap
        (λ n. on_net h (
          invalidate_each grpc (connect grpc) deadline now events n (k ∷ key)
            (targets owner h.world.picker.clients) h.world.net))
        named
      ∙ ap
          (λ u. on_net h (
            invalidate_each grpc (connect grpc) deadline now events name (k ∷ key)
              (targets owner u.picker.clients) u.net))
          same
      ∙ ap (on_net h) done
      ∙ ap (λ u. some (record h { world = record u { net = s' } }, failed)) same
