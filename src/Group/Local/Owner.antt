-- ===== src/Group/Local/Owner.antt =====
-- What the calls of group.go on a key leave of a group at the owner.
pub mod Calls
use locache.Base.{
  ℕ, ◌+◌, ◌≡◌, inl, inr, refl, sym, ◌∙◌, ap, Option, Bool, none, some, false, if◌then◌else◌,
  Option-cases, arith,
}
use locache.Base.Words.{add64, gt64}
use locache.Base.Str.{Str}
use locache.Base.Map.{lookup}
use locache.Cache.{Cache, ByteView}
use locache.Cache
use locache.Group.State.{
  Result, ok, err, cache_miss, Group, M, pure, Peers, Env, >>=-some, else_step,
}
use locache.Group.Local.{
  acquire_key_state, release_key_state, bump_generation, main_get, with_main, unit_of,
  add_owner_value, invalidate_near_key, prepare_local_owner, read_through, set_local, get_local,
  set_state, delete_local, delete_owner_local,
}
use locache.Group.Local.Laws.{acquire_fresh, fresh_state, acquire_shared, shared_state}

-- What a group calls, while its clock stands at `now`.
abbrev pub still : {W : Type 0} → ℕ → Option (Peers W) → Option (Str → M W (Result Str)) → Env W
still now peers getter = record { clock = pure now; peers = peers; getter = getter }

-- A group after a call that is done with the states of keys: all else but the cache and the counters is
-- as it was.
pub record IsKept {W : Type 0} (g h : Group W) : Type 0 where
  pub opened : h.closed ≡ g.closed
  pub near : h.near_cache ≡ g.near_cache
  pub lifetime : h.expiration ≡ g.expiration
  pub world : h.world ≡ g.world
  pub epoch : h.owner_epoch ≡ g.owner_epoch
  pub name : h.name ≡ g.name

pub acquire-IsKept :
    {W : Type 0} (key : Str) (g : Group W)
    → (h : Group W) × (p : ℕ) × ((acquire_key_state key g ≡ some (h, p))
        × (h.main_cache ≡ g.main_cache)
        × IsKept g h)
acquire-IsKept key g = elim (Option-cases (lookup key g.key_states)) [
  | inl e ↦ (
    fresh_state key g,
    g.next_state,
    (
      acquire_fresh key g e,
      refl,
      record {
        opened = refl;
        near = refl;
        lifetime = refl;
        world = refl;
        epoch = refl;
        name = refl;
      },
    ),
  )
  | inr (p, e) ↦ (
    shared_state key g p,
    p,
    (
      acquire_shared key g p e,
      refl,
      record {
        opened = refl;
        near = refl;
        lifetime = refl;
        world = refl;
        epoch = refl;
        name = refl;
      },
    ),
  )
]

-- Without peers there is no epoch to drop a copy of.
pub near_alone :
    {W : Type 0} (now : ℕ) (getter : Option (Str → M W (Result Str))) (key : Str) (h : Group W)
    → invalidate_near_key (still now none getter) key h ≡ some (h, tt)
unfolding invalidate_near_key
near_alone now getter key h = elim (Option-cases h.near_cache) [
  | inl e ↦ ground (arith, e)
  | inr (c, e) ↦ ground (arith, e)
]

-- Without a near cache there is nothing to drop.
pub near_absent :
    {W : Type 0} (env : Env W) (key : Str) (h : Group W)
    → h.near_cache ≡ none
    → invalidate_near_key env key h ≡ some (h, tt)
unfolding invalidate_near_key
near_absent env key h e = ground (arith, e)

-- `deleteLocal` drops the value from the cache, and what `invalidateNearKey` drops.
pub delete_local_drops :
    {W : Type 0} (env : Env W) (key : Str) (g : Group W) (c : Cache) (removed : Bool)
    (n : Option Cache)
    → ((h : Group W)
        → h.near_cache ≡ g.near_cache
        → h.world ≡ g.world
        → invalidate_near_key env key h ≡ some (record h { near_cache = n }, tt))
    → Cache.delete_key key g.main_cache ≡ some (c, removed)
    → (h : Group W) × ((delete_local env key g ≡ some (h, removed))
        × (h.main_cache ≡ c)
        × IsKept (record g { near_cache = n }) h)
unfolding delete_local bump_generation release_key_state
delete_local_drops {W} env key g c removed n near done =
    let (h, p, (taken, cache, kept)) = acquire-IsKept key g in
    (
      _,
      (
        >>=-some (acquire_key_state key) _ g h p taken
            ∙ >>=-some (λ k. on_drop k (Cache.delete_key key k.main_cache)) _ (bumped p h)
                (record (bumped p h) { main_cache = c }) removed
                (ap (on_drop (bumped p h)) (ap (Cache.delete_key key) cache ∙ done))
            ∙ >>=-some (invalidate_near_key env key) _ _ _ tt
                (near (record (bumped p h) { main_cache = c }) kept.near kept.world),
        refl,
        record {
          opened = kept.opened;
          near = refl;
          lifetime = kept.lifetime;
          world = kept.world;
          epoch = kept.epoch;
          name = kept.name;
        },
      ),
    )
  where
    bumped : ℕ → Group W → Group W
    bumped p h = record h {
      states =
          set_state h.states p
            (record (h.states p) { generation = add64 (h.states p).generation 1 });
    }

    on_drop : Group W → Option (Cache × Bool) → Option (Group W × Bool)
    on_drop k none = none
    on_drop k (some (c, r)) = some (record k { main_cache = c }, r)

-- Without a near cache all else stays.
pub delete_local-IsKept :
    {W : Type 0} (env : Env W) (key : Str) (g : Group W) (c : Cache) (removed : Bool)
    → g.near_cache ≡ none
    → Cache.delete_key key g.main_cache ≡ some (c, removed)
    → (h : Group W) × ((delete_local env key g ≡ some (h, removed))
        × (h.main_cache ≡ c)
        × IsKept g h)
delete_local-IsKept {W} env key g c removed near done =
    let (h, (deleted, cache, kept)) =
      delete_local_drops env key g c removed none
        (λ h same _.
          near_absent env key h (same ∙ near)
          ∙ ap (λ n. some (record h { near_cache = n }, tt)) (same ∙ near))
        done in
    (
      h,
      (
        deleted,
        cache,
        record {
          opened = kept.opened;
          near = kept.near ∙ sym near;
          lifetime = kept.lifetime;
          world = kept.world;
          epoch = kept.epoch;
          name = kept.name;
        },
      ),
    )
