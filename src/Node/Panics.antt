-- ===== src/Node/Panics.antt =====
-- Calls of a peer that the picker of peers.go has no client for.
use locache.Base.{ℕ, ◌≡◌, refl, ap, Option, none, some, ◌∷◌, false}
use locache.Base.Str.{Str}
use locache.Base.Map.{lookup}
use locache.Group.State.{Error, Result, Group, M}
use locache.Group.Local.Owner.{still}
use locache.Group.Remote.{get, set, delete_key}
use locache.Group.Remote.Panics.{get_panics, set_panics, delete_panics}
use locache.Peers.{Client, Picked, pick_owner as pick}
use locache.Peers.Invariant.{IsValid}
use locache.Rpc.{Grpc, LocacheClient}
use locache.Node.{World, on_net, by_client, picker_peers}
use locache.Node.Reach.{pick_other, named_owner}

by_client_panics :
    {S A : Type 0} (owner : Str) (call : Client → S → Option (S × A)) (h : Group (World S))
    → lookup owner h.world.picker.clients ≡ none
    → by_client owner call h ≡ none
unfolding by_client
by_client_panics owner call h missing =
    ap (λ o. elim o [ none ↦ none | some c ↦ on_net h (call c h.world.net) ]) missing

module _ {S : Type 0} (grpc : Grpc) (rpc : Str → LocacheClient S) (deadline : Option ℕ) (now : ℕ)
    (events : ℕ × Option Error) (crc : Str → ℕ) (k : ℕ) (key : Str) where
  -- Where the well-formed picker of an open group without a near cache names another node as the owner
  -- of a key, but has no client for it, `Get`, `Set` and `Delete` of the key panic.
  pub missing_client_panics :
      (g : Group (World S)) (getter : Option (Str → M (World S) (Result Str))) (a : Picked) (b : ℕ)
      (value : Str)
      → g.closed ≡ false
      → g.near_cache ≡ none
      → IsValid crc g.world.picker
      → pick (k ∷ key) g.world.picker ≡ some a
      → a.is_self ≡ false
      → lookup a.owner g.world.picker.clients ≡ none
      → let env = still now (some (picker_peers grpc rpc deadline now events)) getter in
        (get env (k ∷ key) g ≡ none)
        × (set env (k ∷ key) (b ∷ value) g ≡ none)
        × (delete_key env (k ∷ key) g ≡ none)
  unfolding picker_peers
  missing_client_panics g getter a b value opened near v picked other missing =
      let p = picker_peers grpc rpc deadline now events in
      let named = named_owner grpc rpc deadline now events crc k key g.world.picker a v picked in
      let asked =
        pick_other grpc rpc deadline now events crc k key g.world.picker a v picked other g refl in
      (
        get_panics now getter p k key a.owner g.world.picker.epoch g opened named asked near
            (by_client_panics a.owner _ g missing),
        set_panics now getter p k key a.owner g.world.picker.epoch g opened named asked b value
            (by_client_panics a.owner _ g missing),
        delete_panics now getter p k key a.owner g.world.picker.epoch g opened named asked
            (by_client_panics a.owner _ g missing),
      )
