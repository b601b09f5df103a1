-- ===== src/Group/Local.antt =====
-- The owner's side of group.go: the paths that the handlers of peers' requests call too.
pub mod Laws
pub mod Owner
pub mod Races
use locache.Base.{
  ℕ, zero, suc, ◌+◌, ◌-◌, Option, none, some, List, [], ◌∷◌, ◌++◌, Bool, true, false, not, ◌&&◌,
  ◌||◌, ◌==◌, if◌then◌else◌, ite, ℕ_discrete,
}
use locache.Base.Words.{add64, sub64, gt64}
use locache.Base.Str.{Str, str_dec}
use locache.Base.Map.{Map, lookup, insert, delete}
use locache.Base.Decimal.{decimal}
use locache.Cache.{Cache, ByteView}
use locache.Cache
use locache.Group.State.{
  Error, group_closed, cache_miss, no_owner, topology_changed, not_owner, owner_error, call_error,
  is_retry, is_cache_miss, Result, ok, err, KeyMutationState, GroupStats, Group, M, pure, ◌>>=◌,
  ◌>>◌, gets, modify, count, Pick, Peers, Env,
}

-- No name stands for the empty string, and a nil slice, too.
abbrev pub is_empty : Str → Bool
is_empty [] = true
is_empty (b ∷ s) = false

abbrev pub with_main : {W A : Type 0} → Group W → Option (Cache × A) → Option (Group W × A)
with_main g none = none
with_main g (some (c, a)) = some (record g { main_cache = c }, a)

abbrev pub with_near : {W A : Type 0} → Group W → Option (Cache × A) → Option (Group W × A)
with_near g none = none
with_near g (some (c, a)) = some (record g { near_cache = some c }, a)

abbrev pub unit_of : Option Cache → Option (Cache × Unit {0})
unit_of none = none
unit_of (some c) = some (c, tt)

abbrev pub set_state : (ℕ → KeyMutationState) → ℕ → KeyMutationState → ℕ → KeyMutationState
set_state f p s q = ite (ℕ_discrete p q) s (f q)

unfoldable pub near_key : ℕ → Str → Str
near_key epoch key = decimal epoch ++ (b':' ∷ key)

-- The update of `ownerEpoch`: another epoch than the last one empties the owner's cache.
unfoldable pub enter_epoch : {W : Type 0} → ℕ → Group W → Group W
enter_epoch epoch g =
    if g.owner_epoch == 0
    then record g { owner_epoch = epoch }
    else if g.owner_epoch == epoch
    then g
    else record g { main_cache = Cache.clear g.main_cache; owner_epoch = epoch }

-- The pointer of the key's state, from the map or new, with one more reference.
unfoldable pub acquire_key_state : {W : Type 0} → Str → M W ℕ
acquire_key_state key g = elim (lookup key g.key_states) [
  | some p ↦ some (
    record g {
      states = set_state g.states p (record (g.states p) { refs = add64 (g.states p).refs 1 });
    },
    p,
  )
  | none ↦ some (
    record g {
      key_states = insert key g.next_state g.key_states;
      states = set_state g.states g.next_state (record { generation = 0; refs = 1 });
      next_state = suc g.next_state;
    },
    g.next_state,
  )
]

abbrev pub is_pointer : ℕ → Option ℕ → Bool
is_pointer p none = false
is_pointer p (some q) = p == q

unfoldable pub release_key_state : {W : Type 0} → Str → ℕ → M W (Unit {0})
release_key_state key p g =
    let refs = sub64 (g.states p).refs 1 in
    some (
      record g {
        states = set_state g.states p (record (g.states p) { refs = refs });
        key_states =
            if (refs == 0) && is_pointer p (lookup key g.key_states)
            then delete key g.key_states
            else g.key_states;
      },
      tt,
    )

-- `state.generation++`, on a uint64.
unfoldable pub bump_generation : {W : Type 0} → ℕ → M W (Unit {0})
bump_generation p g = some (
  record g {
    states =
        set_state g.states p (record (g.states p) { generation = add64 (g.states p).generation 1 });
  },
  tt,
)

module _ {W : Type 0} (env : Env W) where
  unfoldable pub main_get : Str → M W (Option ByteView)
  main_get key = do now ← env.clock; λ g. with_main g (Cache.get key now g.main_cache)

  unfoldable pub add_owner_value : Str → ByteView → M W (Unit {0})
  add_owner_value key view = do
    ttl ← gets (λ g. g.expiration)
    now ← env.clock
    start ← env.clock
    deadline ← env.clock
    later ← env.clock
    λ g. with_main g (
        unit_of (
          if gt64 ttl 0
          then Cache.add_with_expiration key view (now + ttl) start deadline later g.main_cache
          else Cache.add key view deadline later g.main_cache))

  abbrev drop_near : Str → M W (Unit {0})
  drop_near near g = elim g.near_cache [
    | none ↦ some (g, tt)
    | some c ↦ elim (Cache.delete_key near c) [
      | none ↦ none
      | some (c', _) ↦ some (record g { near_cache = some c' }, tt)
    ]
  ]

  unfoldable pub invalidate_near_key : Str → M W (Unit {0})
  invalidate_near_key key g = elim g.near_cache [
    | none ↦ some (g, tt)
    | some c ↦ elim env.peers [
      | none ↦ some (g, tt)
      | some p ↦ (p.epoch_of >>= λ e. drop_near (near_key e key)) g
    ]
  ]

  -- What `prepareLocalOwner` makes of an answer of the picker.
  unfoldable pub own_pick : Pick → M W (Result ℕ)
  own_pick pick =
      if not pick.ok || is_empty pick.owner
      then pure (err no_owner)
      else if not pick.is_self
      then pure (err (owner_error not_owner pick.owner))
      else modify (enter_epoch pick.epoch) >> pure (ok pick.epoch)

  unfoldable pub prepare_local_owner : Str → M W (Result ℕ)
  prepare_local_owner key = elim env.peers [
    | none ↦ pure (ok 0)
    | some p ↦ p.pick_owner key >>= own_pick
  ]

  -- Whether the key may have moved since `epoch`, after the load.
  unfoldable pub has_moved : Str → ℕ → M W Bool
  has_moved key epoch = elim env.peers [
    | none ↦ pure false
    | some p ↦ p.pick_owner key >>= λ now.
        pure (not now.ok || (not now.is_self || not (now.epoch == epoch)))
  ]

  -- The end of a load, under the lock of the key's state: a value that was loaded while the key was
  -- written or deleted is not stored.
  unfoldable pub fill : Str → ℕ → ℕ → Str → M W (Result ByteView)
  fill key p start bytes = do
    generation ← gets (λ g. (g.states p).generation)
    if generation == start
        then add_owner_value key (record { b = bytes }) >> pure (ok (record { b = bytes }))
        else main_get key >>= λ found.
            pure (elim found [ none ↦ err cache_miss | some view ↦ ok view ])

  -- The load from the source, for a key that is still missing.
  unfoldable pub load_source : (Str → M W (Result Str)) → Str → ℕ → ℕ → M W (Result ByteView)
  load_source getter key p epoch = do
    generation ← gets (λ g. (g.states p).generation)
    start ← env.clock
    count (λ s. record s { source_loads = add64 s.source_loads 1 })
    loaded ← getter key
    finish ← env.clock
    count (λ s. record s { source_duration = add64 s.source_duration (finish - start) })
    elim loaded [
      | err e ↦ count (λ s. record s { source_errors = add64 s.source_errors 1 }) >> pure (err e)
      | ok bytes ↦ has_moved key epoch >>= λ moved.
          if moved then pure (err topology_changed) else fill key p generation bytes
    ]

  -- The function that `getLocal` hands to the single flight, as its leader runs it.
  unfoldable pub load : (Str → M W (Result Str)) → Str → ℕ → ℕ → M W (Result ByteView)
  load getter key p epoch = do
    found ← main_get key
    elim found [ some view ↦ pure (ok view) | none ↦ load_source getter key p epoch ]

  unfoldable pub load_error : Str → Result ByteView → Result ByteView
  load_error key (ok view) = ok view
  load_error key (err e) = if is_cache_miss e || is_retry e then err e else err (call_error e key)

  -- `getLocal` between taking and giving back the key's state.
  unfoldable pub read_through : Str → ℕ → ℕ → M W (Result ByteView)
  read_through key p epoch = do
    found ← main_get key
    elim found [
      | some view ↦ count (λ s. record s { local_hits = add64 s.local_hits 1 }) >> pure (ok view)
      | none ↦ count (λ s. record s { local_misses = add64 s.local_misses 1 }) >> elim env.getter [
        | none ↦ pure (err cache_miss)
        | some getter ↦ load getter key p epoch >>= λ r. pure (load_error key r)
      ]
    ]

  unfoldable pub get_local : Str → M W (Result ByteView)
  get_local key = do
    closed ← gets (λ g. g.closed)
    if closed
        then pure (err group_closed)
        else prepare_local_owner key >>= λ owner. elim owner [
          | err e ↦ pure (err e)
          | ok epoch ↦ do
            p ← acquire_key_state key
            r ← read_through key p epoch
            release_key_state key p
            pure r
        ]

  unfoldable pub set_local : Str → Str → M W (Result (Unit {0}))
  set_local key value = do
    closed ← gets (λ g. g.closed)
    if closed
        then pure (err group_closed)
        else prepare_local_owner key >>= λ owner. elim owner [
          | err e ↦ pure (err e)
          | ok epoch ↦ do
            p ← acquire_key_state key
            bump_generation p
            add_owner_value key (record { b = value })
            invalidate_near_key key
            release_key_state key p
            pure (ok tt)
        ]

  unfoldable pub delete_local : Str → M W Bool
  delete_local key = do
    p ← acquire_key_state key
    bump_generation p
    removed ← (λ g. with_main g (Cache.delete_key key g.main_cache))
    invalidate_near_key key
    release_key_state key p
    pure removed

  unfoldable pub delete_owner_local : Str → M W (Result Bool)
  delete_owner_local key = do
    closed ← gets (λ g. g.closed)
    if closed
        then pure (err group_closed)
        else prepare_local_owner key >>= λ owner. elim owner [
          | err e ↦ pure (err e)
          | ok epoch ↦ delete_local key >>= λ removed. pure (ok removed)
        ]
