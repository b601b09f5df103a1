-- ===== src/Group/Local/Owner/Calls.antt =====
-- `setLocal`, `getLocal` and `deleteOwnerLocal` of group.go at the owner, where the clock stands still.
use locache.Base.{ℕ, ◌+◌, ◌≡◌, refl, ◌∙◌, ap, Option, Bool, none, some, false, if◌then◌else◌}
use locache.Base.Words.{add64, gt64}
use locache.Base.Str.{Str}
use locache.Cache.{Cache, ByteView}
use locache.Cache
use locache.Group.State.{Result, ok, err, cache_miss, Group, M, Peers, >>=-some, else_step}
use locache.Group.Local.{
  acquire_key_state, release_key_state, bump_generation, main_get, with_main, unit_of,
  add_owner_value, invalidate_near_key, prepare_local_owner, read_through, set_local, get_local,
  delete_local, delete_owner_local,
}
use locache.Group.Local.Owner.{still, IsKept, acquire-IsKept, delete_local-IsKept}

module _ {W : Type 0} (now : ℕ) (peers : Option (Peers W))
    (getter : Option (Str → M W (Result Str))) (key : Str) where
  -- A value without a lifetime enters the cache of the owner.
  pub add_forever :
      (value : Str) (c : Cache) (h : Group W)
      → gt64 h.expiration 0 ≡ false
      → Cache.add key (record { b = value }) now now h.main_cache ≡ some c
      → add_owner_value (still now peers getter) key (record { b = value }) h
        ≡ some (record h { main_cache = c }, tt)
  unfolding add_owner_value
  add_forever value c h ttl added =
      ap
        (λ b. with_main h (
          unit_of (
            if b
            then Cache.add_with_expiration key (record { b = value }) (now + h.expiration) now now
                now h.main_cache
            else Cache.add key (record { b = value }) now now h.main_cache)))
        ttl
      ∙ ap (λ o. with_main h (unit_of o)) added

  -- `setLocal` where this node is found to be the owner.
  pub set_local_owner :
      (value : Str) (g g0 : Group W) (e : ℕ) (c : Cache)
      → g.closed ≡ false
      → prepare_local_owner (still now peers getter) key g ≡ some (g0, ok e)
      → gt64 g0.expiration 0 ≡ false
      → ((h : Group W)
          → h.near_cache ≡ g0.near_cache
          → invalidate_near_key (still now peers getter) key h ≡ some (h, tt))
      → Cache.add key (record { b = value }) now now g0.main_cache ≡ some c
      → (h : Group W) × ((set_local (still now peers getter) key value g ≡ some (h, ok tt))
          × (h.main_cache ≡ c)
          × IsKept g0 h)
  unfolding set_local bump_generation release_key_state
  set_local_owner value g g0 e c opened owned forever quiet added =
      let (h, p, (taken, cache, k)) = acquire-IsKept key g0 in
      (
        _,
        (
          else_step _ _ _ g _ opened (
              >>=-some (prepare_local_owner (still now peers getter) key) _ g g0 (ok e) owned
              ∙ >>=-some (acquire_key_state key) _ g0 h p taken
              ∙ >>=-some (add_owner_value (still now peers getter) key (record { b = value })) _ _ _
                  tt
                  (add_forever value c _ (ap (λ n. gt64 n 0) k.lifetime ∙ forever)
                    (ap (Cache.add key (record { b = value }) now now) cache ∙ added))
              ∙ >>=-some (invalidate_near_key (still now peers getter) key) _ _ _ tt
                  (quiet _ k.near)),
          refl,
          record {
            opened = k.opened;
            near = k.near;
            lifetime = k.lifetime;
            world = k.world;
            epoch = k.epoch;
            name = k.name;
          },
        ),
      )

  -- `getLocal` where this node is found to be the owner, and its cache has the key.
  pub get_local_owner :
      (v : ByteView) (g g0 : Group W) (e : ℕ) (c : Cache)
      → g.closed ≡ false
      → prepare_local_owner (still now peers getter) key g ≡ some (g0, ok e)
      → Cache.get key now g0.main_cache ≡ some (c, some v)
      → (h : Group W) × ((get_local (still now peers getter) key g ≡ some (h, ok v))
          × (h.main_cache ≡ c)
          × IsKept g0 h)
  unfolding get_local read_through main_get release_key_state
  get_local_owner v g g0 e c opened owned found =
      let (h, p, (taken, cache, k)) = acquire-IsKept key g0 in
      (
        _,
        (
          else_step _ _ _ g _ opened (
              >>=-some (prepare_local_owner (still now peers getter) key) _ g g0 (ok e) owned
              ∙ >>=-some (acquire_key_state key) _ g0 h p taken
              ∙ >>=-some (read_through (still now peers getter) key p e) _ h (hit h) (ok v) (
                  >>=-some (main_get (still now peers getter) key) _ h (record h { main_cache = c })
                    (some v) (ap (with_main h) (ap (Cache.get key now) cache ∙ found)))),
          refl,
          record {
            opened = k.opened;
            near = k.near;
            lifetime = k.lifetime;
            world = k.world;
            epoch = k.epoch;
            name = k.name;
          },
        ),
      )
    where
      hit : Group W → Group W
      hit h = record h {
        main_cache = c;
        stats = record (h.stats) { local_hits = add64 h.stats.local_hits 1 };
      }

  -- `deleteOwnerLocal` where this node is found to be the owner.
  pub delete_owner :
      (g g0 : Group W) (e : ℕ) (c : Cache) (removed : Bool)
      → g.closed ≡ false
      → prepare_local_owner (still now peers getter) key g ≡ some (g0, ok e)
      → g0.near_cache ≡ none
      → Cache.delete_key key g0.main_cache ≡ some (c, removed)
      → (h : Group W) × ((delete_owner_local (still now peers getter) key g ≡ some (h, ok removed))
          × (h.main_cache ≡ c)
          × IsKept g0 h)
  unfolding delete_owner_local
  delete_owner g g0 e c removed opened owned near dropped =
      let (h, (done, cache, kept)) =
        delete_local-IsKept (still now peers getter) key g0 c removed near dropped in
      (
        h,
        (
          else_step _ _ _ g _ opened (
              >>=-some (prepare_local_owner (still now peers getter) key) _ g g0 (ok e) owned
              ∙ >>=-some (delete_local (still now peers getter) key) _ g0 h removed done),
          cache,
          kept,
        ),
      )

-- `getLocal` where this node is found to be the owner, its cache does not have the key, and there is no
-- source to load it from.
pub get_local_missed :
    {W : Type 0} (now : ℕ) (peers : Option (Peers W)) (key : Str) (g g0 : Group W) (e : ℕ)
    (c : Cache)
    → g.closed ≡ false
    → prepare_local_owner (still now peers none) key g ≡ some (g0, ok e)
    → Cache.get key now g0.main_cache ≡ some (c, none)
    → (h : Group W) × (get_local (still now peers none) key g ≡ some (h, err cache_miss))
unfolding get_local read_through main_get release_key_state
get_local_missed {W} now peers key g g0 e c opened owned found =
    let (h, p, (taken, cache, k)) = acquire-IsKept key g0 in
    (
      _,
      else_step _ _ _ g _ opened (
          >>=-some (prepare_local_owner (still now peers none) key) _ g g0 (ok e) owned
          ∙ >>=-some (acquire_key_state key) _ g0 h p taken
          ∙ >>=-some (read_through (still now peers none) key p e) _ h (missed h) (err cache_miss) (
              >>=-some (main_get (still now peers none) key) _ h (record h { main_cache = c }) none
                (ap (with_main h) (ap (Cache.get key now) cache ∙ found)))),
    )
  where
    missed : Group W → Group W
    missed h = record h {
      main_cache = c;
      stats = record (h.stats) { local_misses = add64 h.stats.local_misses 1 };
    }
