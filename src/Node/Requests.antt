-- ===== src/Node/Requests.antt =====
-- What a group asks of the owner of a key at another node, and what it gets.
use locache.Base.{
  ℕ, ◌≡◌, ◌≢◌, refl, sym, ◌∙◌, ap, subst, Option, none, some, ◌∷◌, Bool, false, if_pos, if_neg,
}
use locache.Base.Str.{Str, str_dec}
use locache.Base.Map.{lookup}
use locache.Cache.Deletes.{Serves, delete_key-Serves}
use locache.Group.State.{err, is_retry, call_error, Error, Result, ok, Group, M}
use locache.Group.Local.Owner.{still}
use locache.Group.Table.{Groups}
use locache.Rpc.Codes.{received}
use locache.Group.Remote.{delete_key, set, get}
use locache.Group.Local.{is_empty}
use locache.Group.Remote.Steady.Writes.{set_steady}
use locache.Group.Remote.Steady.Deletes.{delete_steady}
use locache.Group.Remote.Steady.Reads.{get_steady, get_refused}
use locache.Group.Remote.Steady.{other_pick}
use locache.Peers.{Client, Picked, targets, pick_owner as pick}
use locache.Peers.Invariant.{IsValid}
use locache.Peers.Dialled.{lookup-IsDialled}
use locache.Rpc.{Grpc}
use locache.Rpc.Server
use locache.Node.{World, Net, set_node, connect, invalidate_each}
use locache.Node.Reach.{pick_other, named_owner}
use locache.Node.Spread.{IsCalm, invalidate_each_calm}
use locache.Node.Calls.{
  targets-IsDialled, elsewhere, peer_set_at, peer_get_at, peer_get_fails, peer_delete_at,
  invalidate_at,
}

-- A group that asks: it is open and has no near cache, and its picker, which is well-formed, has a
-- client for the owner of the key, another node.
pub record IsAsking {S : Type 0} (crc : Str → ℕ) (k : ℕ) (key : Str) (g : Group (World S))
    : Type 0 where
  pub opened : g.closed ≡ false
  pub near : g.near_cache ≡ none
  pub valid : IsValid crc g.world.picker
  pub answer : Picked
  pub picked : pick (k ∷ key) g.world.picker ≡ some answer
  pub other : answer.is_self ≡ false
  pub client : Client
  pub has : lookup answer.owner g.world.picker.clients ≡ some client

module _ {W : Type 0} (grpc : Grpc) (deadline : Option ℕ) (now : ℕ) (events : ℕ × Option Error)
    (k : ℕ) (key : Str) where
  module _ (crc : Str → ℕ) (getter : Option (Str → M (World (Net W)) (Result Str)))
      (g : Group (World (Net W))) (h : IsAsking crc k key g) where
    named : is_empty h.answer.owner ≡ false
    named =
        named_owner {S = Net W} grpc (connect grpc) deadline now events crc k key g.world.picker
          h.answer h.valid h.picked

    steady :
        (h' : Group (World (Net W)))
        → h'.world.picker ≡ g.world.picker
        → (elsewhere grpc deadline now events k key).pick_owner (k ∷ key) h'
          ≡ some (h', other_pick h.answer.owner g.world.picker.epoch)
    steady =
        pick_other grpc (connect grpc) deadline now events crc k key g.world.picker h.answer h.valid
          h.picked h.other

    at_owner : h.client.addr ≡ h.answer.owner
    at_owner = lookup-IsDialled h.answer.owner h.client g.world.picker.clients h.valid.dialled h.has

    -- `Get` returns what the node of the owner answers.
    pub get_elsewhere :
        (bytes : Str) (gs' : Groups W)
        → Server.get grpc g.name (k ∷ key) (g.world.net h.answer.owner) ≡ some (gs', ok bytes)
        → (g' : Group (World (Net W))) × (get
              (still now (some (elsewhere grpc deadline now events k key)) getter)
              (k ∷ key)
              g
            ≡ some (g', ok (record { b = bytes })))
    get_elsewhere bytes gs' answered =
        let (g', (done, _)) =
          get_steady now getter (elsewhere grpc deadline now events k key) (k ∷ key) h.answer.owner
            g.world.picker.epoch (λ w. w.picker ≡ g.world.picker) named steady k key bytes g
            (record (g.world) { net = set_node g.world.net h.answer.owner gs' }) refl h.opened
            h.near refl
            (peer_get_at grpc deadline now events k key g.name h.answer.owner bytes h.client g gs'
              h.has at_owner answered)
            refl in
        (g', done)

    -- The requests to drop copies return, and leave the owner's node alone.
    told_elsewhere :
        (gs' : Groups W)
        → ((addr : Str) → addr ≢ h.answer.owner → IsCalm g.name (k ∷ key) (g.world.net addr))
        → (s : Net W) × (failed : Bool) × ((invalidate_each grpc
                (connect grpc)
                deadline
                now
                events
                g.name
                (k ∷ key)
                (targets h.answer.owner g.world.picker.clients)
                (set_node g.world.net h.answer.owner gs')
              ≡ some (s, failed))
            × (s h.answer.owner ≡ gs'))
    told_elsewhere gs' calm =
        let (s, failed, (told, same)) =
          invalidate_each_calm grpc g.name (k ∷ key) deadline now events h.answer.owner
            (targets h.answer.owner g.world.picker.clients)
            (set_node g.world.net h.answer.owner gs')
            (targets-IsDialled h.answer.owner g.world.picker.clients h.valid.dialled)
            (λ addr away.
              subst (IsCalm g.name (k ∷ key))
                (sym
                  (if_neg (str_dec h.answer.owner addr) (λ e. away (sym e)) gs' (g.world.net addr)))
                (calm addr away)) in
        (
          s,
          failed,
          (
            told,
            same
                ∙ if_pos (str_dec h.answer.owner h.answer.owner) refl gs'
                    (g.world.net h.answer.owner),
          ),
        )

    -- `Get` hands on a miss that the node of the owner answers.
    pub missed_elsewhere :
        (e : Error) (gs' : Groups W)
        → Server.get grpc g.name (k ∷ key) (g.world.net h.answer.owner) ≡ some (gs', err e)
        → is_retry (received grpc h.client.addr e) ≡ false
        → (g' : Group (World (Net W))) × (get
              (still now (some (elsewhere grpc deadline now events k key)) getter)
              (k ∷ key)
              g
            ≡ some (g', err (call_error (received grpc h.client.addr e) h.answer.owner)))
    missed_elsewhere e gs' answered final =
        get_refused now getter (elsewhere grpc deadline now events k key) (k ∷ key) h.answer.owner
          g.world.picker.epoch (λ w. w.picker ≡ g.world.picker) named steady k key
          (received grpc h.client.addr e) g
          (record (g.world) { net = set_node g.world.net h.answer.owner gs' }) refl h.opened h.near
          refl
          (peer_get_fails grpc deadline now events k key g.name h.answer.owner e h.client g gs'
            h.has at_owner answered)
          final

    -- `Set` returns where the node of the owner stores the value and the others can drop their copies,
    -- and leaves the owner's node as the request left it.
    pub set_elsewhere :
        (b : ℕ) (value : Str) (gs' : Groups W)
        → Serves (k ∷ key) g.main_cache
        → ((addr : Str) → addr ≢ h.answer.owner → IsCalm g.name (k ∷ key) (g.world.net addr))
        → Server.set grpc g.name (k ∷ key) (b ∷ value) (g.world.net h.answer.owner)
          ≡ some (gs', ok (b ∷ value))
        → (g' : Group (World (Net W))) × ((set
                (still now (some (elsewhere grpc deadline now events k key)) getter)
                (k ∷ key)
                (b ∷ value)
                g
              ≡ some (g', ok tt))
            × (g'.world.net h.answer.owner ≡ gs'))
    set_elsewhere b value gs' serves calm stored =
        let (s, failed, (told, left)) = told_elsewhere gs' calm in
        let (c, removed, (dropped, _)) = delete_key-Serves (k ∷ key) g.main_cache serves in
        let (g', (done, _, _, _, world)) =
          set_steady now getter (elsewhere grpc deadline now events k key) (k ∷ key) h.answer.owner
            g.world.picker.epoch (λ w. w.picker ≡ g.world.picker) named steady k b key value g
            (record (g.world) { net = set_node g.world.net h.answer.owner gs' })
            (record (g.world) { net = s }) c removed failed refl h.opened h.near refl
            (peer_set_at grpc deadline now events k key g.name h.answer.owner (b ∷ value) h.client g
              gs' h.has at_owner stored)
            refl dropped
            (λ h' w n.
              invalidate_at grpc deadline now events k key h.answer.owner h' _ g.name s failed w n
                told) in
        (g', (done, ap (λ (w : World (Net W)). w.net h.answer.owner) world ∙ left))

    -- So does `Delete`, where the owner's node drops the value.
    pub delete_elsewhere :
        (there : Bool) (gs' : Groups W)
        → Serves (k ∷ key) g.main_cache
        → ((addr : Str) → addr ≢ h.answer.owner → IsCalm g.name (k ∷ key) (g.world.net addr))
        → Server.delete_key grpc false g.name (k ∷ key) (g.world.net h.answer.owner)
          ≡ some (gs', ok there)
        → (g' : Group (World (Net W))) × ((delete_key
                (still now (some (elsewhere grpc deadline now events k key)) getter)
                (k ∷ key)
                g
              ≡ some (g', ok tt))
            × (g'.world.net h.answer.owner ≡ gs'))
    delete_elsewhere there gs' serves calm deleted =
        let (s, failed, (told, left)) = told_elsewhere gs' calm in
        let (c, removed, (dropped, _)) = delete_key-Serves (k ∷ key) g.main_cache serves in
        let (g', (done, world)) =
          delete_steady now getter (elsewhere grpc deadline now events k key) (k ∷ key)
            h.answer.owner g.world.picker.epoch (λ w. w.picker ≡ g.world.picker) named steady k key
            g (record (g.world) { net = set_node g.world.net h.answer.owner gs' })
            (record (g.world) { net = s }) c there removed failed refl h.opened h.near refl
            (peer_delete_at grpc deadline now events k key g.name h.answer.owner there h.client g
              gs' h.has at_owner deleted)
            refl dropped
            (λ h' w n.
              invalidate_at grpc deadline now events k key h.answer.owner h' _ g.name s failed w n
                told) in
        (g', (done, ap (λ (w : World (Net W)). w.net h.answer.owner) world ∙ left))
