-- ===== src/Group/Remote/Steady/Dropped.antt =====
-- `deleteLocal` of group.go at a node that does not own the key, as another node's write asks for it.
use locache.Base.{ℕ, ◌+◌, ◌≡◌, refl, ◌∙◌, Option, some, ◌∷◌, false, arith}
use locache.Base.Str.{Str}
use locache.Store.Lru.{Lru}
use locache.Store.Lru.Invariant.{IsValid}
use locache.Store.Choice.Backing.{backing}
use locache.Cache.{Cache, ByteView, Value, size}
use locache.Cache
use locache.Group.State.{Result, ok, Group, M, Peers}
use locache.Group.Local.{is_empty, near_key}
use locache.Group.Local.Owner.{still}
use locache.Group.Remote.{get}
use locache.Group.Remote.Steady.{other_pick}
use locache.Group.Remote.Steady.Reads.{get_asks, peer_hit}
use locache.Base.{Bool, sym, subst}
use locache.Cache.Deletes.{Serves, delete_key-Serves, get-delete_key, Serves-add_with_expiration}
use locache.Group.Local.{delete_local, invalidate_near_key}
use locache.Group.Local.Owner.{delete_local_drops}
use locache.Group.Remote.Steady.Near.{near_miss, near_missed, near_kept}

-- A picker that names another node as the owner of the key, wherever `Same` holds of what lies outside.
module _ {W : Type 0} (now : ℕ) (getter : Option (Str → M W (Result Str))) (p : Peers W)
    (key owner : Str) (epoch : ℕ) (Same : W → Type 0) (named : is_empty owner ≡ false)
    (steady : (h : Group W)
      → Same h.world
      → p.pick_owner key h ≡ some (h, other_pick owner epoch)) where
  drop_near_steady :
      (c c' : Cache) (removed : Bool) (h : Group W)
      → h.near_cache ≡ some c
      → p.epoch_of h ≡ some (h, epoch)
      → Cache.delete_key (near_key epoch key) c ≡ some (c', removed)
      → invalidate_near_key (still now (some p) getter) key h
        ≡ some (record h { near_cache = some c' }, tt)
  unfolding invalidate_near_key
  drop_near_steady c c' removed h has here dropped = ground (arith, has, here, dropped)

  -- A node that is told to drop its copy of a key asks the owner at its next Get, whatever near copy it
  -- had. While the picker names another node as the owner of the key, under one epoch, and the owner
  -- answers with bytes: on an open group whose near cache is open, with a well-formed LRU for the copy,
  -- and whose main cache has an LRU for the key, `deleteLocal` returns, and a Get after it at the same
  -- instant asks the owner and returns its bytes.
  pub get-delete_local :
      (k : ℕ) (rest bytes : Str) (g : Group W) (w : W) (c : Cache) (l : Lru Value)
      → key ≡ k ∷ rest
      → g.closed ≡ false
      → Same g.world
      → ((h : Group W) → h.world ≡ g.world → p.epoch_of h ≡ some (h, epoch))
      → ((h : Group W)
          → h.world ≡ g.world
          → p.peer_get owner h.name key h ≡ some (record h { world = w }, ok bytes))
      → Same w
      → g.near_cache ≡ some c
      → c.closed ≡ false
      → backing (near_key epoch key) c.store ≡ some l
      → IsValid size l
      → Serves key g.main_cache
      → (h g' : Group W) × (removed : Bool) × ((delete_local (still now (some p) getter) key g
            ≡ some (h, removed))
          × (get (still now (some p) getter) key h ≡ some (g', ok (record { b = bytes })))
          × (g'.world ≡ w))
  get-delete_local k rest bytes g w c l full opened same epochs asks same' has unshut backs valid
        serves =
      let (c1, c2, gone, (dropped, missing, left)) =
        get-delete_key (near_key epoch key) now c l unshut backs valid in
      let (m, removed, (deleted, _)) = delete_key-Serves key g.main_cache serves in
      let (h, (done, _, kept)) =
        delete_local_drops (still now (some p) getter) key g m removed (some c1)
          (λ h near world. drop_near_steady c c1 gone h (near ∙ has) (epochs h world) dropped)
          deleted in
      let (c3, added) =
        Serves-add_with_expiration (near_key epoch key) (record { b = bytes }) (now + h.near_ttl)
          now now now c2 left in
      let g1 = peer_hit (record (near_miss c2 h) { world = w }) in
      (
        h,
        record g1 { near_cache = some c3 },
        removed,
        (
          done,
          get_asks now getter p key owner epoch Same named steady k rest bytes h (near_miss c2 h) _
              w full (kept.opened ∙ opened) (subst Same (sym kept.world) same)
              (near_missed now getter p key owner epoch Same named steady h c1 c2 kept.near missing)
              (asks (near_miss c2 h) kept.world) same'
              (near_kept now getter p key owner epoch Same named steady g1 c2 c3
                (record { b = bytes }) refl added),
          refl,
        ),
      )
