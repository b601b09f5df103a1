-- ===== src/Group/Remote/Lone.antt =====
-- `Set` and then `Get` of group.go, on a group without peers.
use locache.Base.{
  ℕ, ◌+◌, ◌^◌, ◌≤◌, ◌<◌, ◌≡◌, refl, ◌∙◌, ap, Option, none, some, [], ◌∷◌, false, length,
}
use locache.Base.Words.{add64, gt64}
use locache.Base.Str.{Str}
use locache.Cache.{Cache, ByteView, Value, size}
use locache.Cache
use locache.Cache.Reads.{get-add}
use locache.Store.Lru.{Lru}
use locache.Store.Lru.Spec.{weigh}
use locache.Store.Lru.Invariant.{IsValid, view}
use locache.Store.Choice.Backing.{backing}
use locache.Group.State.{Result, ok, Group, M, >>=-some, else_step}
use locache.Group.Local.{invalidate_near_key, prepare_local_owner, set_local}
use locache.Group.Local.Owner.{near_alone}
use locache.Group.Local.Owner.Calls.{set_local_owner, get_local_owner}
use locache.Group.Local.Races.{alone}
use locache.Group.Remote.{
  get, set, finish_set, invalidate_local_copies, invalidate_peer_copies, keep_copy,
}

module _ {W : Type 0} (now : ℕ) (getter : Option (Str → M W (Result Str))) (key : Str) where
  finish_lone :
      (value : Str) (g : Group W)
      → finish_set (alone now getter) key value (ok ([], 0)) g
        ≡ some (record g { stats = record (g.stats) { sets = add64 g.stats.sets 1 } }, ok tt)
  unfolding finish_set invalidate_local_copies invalidate_peer_copies keep_copy
  finish_lone value g =
      >>=-some (invalidate_near_key (alone now getter) key) _ _ _ tt (near_alone now getter key _)

-- A `Get` after a `Set` of the key returns the value, on an open group without peers and without a
-- default lifetime, whatever its source, if key and value are not empty, and the cache of the group is
-- open and served by a well-formed LRU in which they fit.
pub get-set :
    {W : Type 0} (now : ℕ) (getter : Option (Str → M W (Result Str))) (k b : ℕ) (key value : Str)
    (g : Group W) (l : Lru Value)
    → g.closed ≡ false
    → gt64 g.expiration 0 ≡ false
    → g.main_cache.closed ≡ false
    → backing (k ∷ key) g.main_cache.store ≡ some l
    → IsValid size l
    → l.max_bytes < 2 ^ 64
    → weigh size (view l) + length (k ∷ key) + length (b ∷ value) < 2 ^ 63
    → length (k ∷ key) + length (b ∷ value) ≤ l.max_bytes
    → (g' g'' : Group W) × ((set (alone now getter) (k ∷ key) (b ∷ value) g ≡ some (g', ok tt))
        × (get (alone now getter) (k ∷ key) g' ≡ some (g'', ok (record { b = b ∷ value }))))
unfolding set get prepare_local_owner
get-set now getter k b key value g l opened forever live serves v word small fits =
    let (c, c', (added, read)) =
      get-add (k ∷ key) (record { b = b ∷ value }) now now now g.main_cache l live serves v word
        small fits in
    let (h, (done, cache, like)) =
      set_local_owner now none getter (k ∷ key) (b ∷ value) g g 0 c opened refl forever
        (λ h e. near_alone now getter (k ∷ key) h) added in
    let still = like.opened ∙ opened in
    let counted = record h { stats = record (h.stats) { sets = add64 h.stats.sets 1 } } in
    let (h', (answer, _, _)) =
      get_local_owner now none getter (k ∷ key) (record { b = b ∷ value }) counted counted 0 c'
        still refl (ap (Cache.get (k ∷ key) now) cache ∙ read) in
    (
      _,
      h',
      (
        else_step _ _ _ g _ opened (
            >>=-some (set_local (alone now getter) (k ∷ key) (b ∷ value)) _ g h (ok tt) done
            ∙ finish_lone now getter (k ∷ key) (b ∷ value) h),
        else_step _ _ _ _ _ still answer,
      ),
    )
