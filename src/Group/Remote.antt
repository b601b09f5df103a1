-- ===== src/Group/Remote.antt =====
-- The requester's side of group.go: `Get`, `Set` and `Delete`, with their four attempts.
pub mod Laws
pub mod Lone
pub mod Steady
pub mod Panics
use locache.Base.{
  ℕ, zero, suc, ◌+◌, Option, none, some, List, [], ◌∷◌, ◌++◌, Bool, true, false, not, ◌&&◌, ◌||◌,
  ◌==◌, if◌then◌else◌, ite,
}
use locache.Base.Words.{add64, gt64}
use locache.Base.Str.{Str, str_dec}
use locache.Cache.{Cache, ByteView}
use locache.Cache
use locache.Group.State.{
  Error, key_required, value_required, group_closed, no_owner, peer_unavailable, topology_changed,
  owner_error, call_error, is_retry, Result, ok, err, GroupStats, Group, M, pure, ◌>>=◌, ◌>>◌, gets,
  modify, count, Pick, Peers, Env,
}
use locache.Group.Local.{
  is_empty, with_near, unit_of, near_key, get_local, set_local, delete_local, invalidate_near_key,
}

-- Whether a later answer of the picker names the owner and the epoch of an earlier one.
abbrev pub is_stable : Pick → Pick → Bool
is_stable now pick =
    now.ok && (ite (str_dec now.owner pick.owner) true false && (now.epoch == pick.epoch))

-- The loop of a wait, for the ticks that its select sees before it ends.
unfoldable pub wait_loop : {W : Type 0} → Peers W → ℕ → ℕ → Option Error → M W (Option Error)
wait_loop p epoch zero end_ = p.epoch_of >>= λ e. pure (if not (e == epoch) then none else end_)
wait_loop p epoch (suc ticks) end_ =
    p.epoch_of >>= λ e. if not (e == epoch) then pure none else wait_loop p epoch ticks end_

unfoldable pub wait_for_topology_retry : {W : Type 0} → Peers W → ℕ → M W (Option Error)
wait_for_topology_retry p epoch = p.wait_events >>= λ events. wait_loop p epoch events.0 events.1

module _ {W : Type 0} (env : Env W) where
  -- What the near cache has, where there is one.
  unfoldable pub near_get : Str → M W (Option ByteView)
  near_get near = do
    now ← env.clock
    λ g. elim g.near_cache [ none ↦ some (g, none) | some c ↦ with_near g (Cache.get near now c) ]

  abbrev pub near_delete : Str → M W (Unit {0})
  near_delete near g = elim g.near_cache [
    | none ↦ some (g, tt)
    | some c ↦ elim (Cache.delete_key near c) [
      | none ↦ none
      | some (c', _) ↦ some (record g { near_cache = some c' }, tt)
    ]
  ]

  unfoldable pub near_add : Str → ByteView → M W (Unit {0})
  near_add near view = do
    now ← env.clock
    start ← env.clock
    deadline ← env.clock
    later ← env.clock
    λ g. elim g.near_cache [
      | none ↦ some (g, tt)
      | some c ↦
          with_near g (
            unit_of (Cache.add_with_expiration near view (now + g.near_ttl) start deadline later c))
    ]

  abbrev has_near : Group W → Bool
  has_near g = elim g.near_cache [ none ↦ false | some _ ↦ true ]

  -- The part of an attempt of `Get` that answers from the near cache.
  unfoldable pub near_attempt : Peers W → Str → Pick → M W (Option ByteView)
  near_attempt p key pick = do
    near ← gets has_near
    if not near then pure none else do
      found ← near_get (near_key pick.epoch key)
      elim found [
        | none ↦ count (λ s. record s { near_misses = add64 s.near_misses 1 }) >> pure none
        | some view ↦ p.pick_owner key >>= λ now.
            if is_stable now pick
            then count (λ s. record s { near_hits = add64 s.near_hits 1 }) >> pure (some view)
            else near_delete (near_key pick.epoch key)
              >> (count (λ s. record s { near_misses = add64 s.near_misses 1 }) >> pure none)
      ]

  -- After a refusal of the owner: another attempt, unless it was the last or the context ended.
  unfoldable pub retry : {A : Type 0} → Peers W → ℕ → Pick → M W (Result A) → M W (Result A)
  retry p zero pick again = pure (err topology_changed)
  retry p (suc left) pick again =
      wait_for_topology_retry p pick.epoch >>= λ e. elim e [ some e ↦ pure (err e) | none ↦ again ]

  -- The request to the owner, and what follows it; `again` is the next attempt.
  unfoldable pub remote_get :
      Peers W → ℕ → Str → Pick → M W (Result ByteView) → M W (Result ByteView)
  remote_get p left key pick again = do
    name ← gets (λ g. g.name)
    r ← p.peer_get pick.owner name key
    elim r [
      | err e ↦
          count (λ s. record s { peer_misses = add64 s.peer_misses 1 })
          >> (if is_retry e then retry p left pick again else pure (err (call_error e pick.owner)))
      | ok bytes ↦ p.pick_owner key >>= λ now.
          if not (is_stable now pick) || now.is_self
          then again
          else count (λ s. record s { peer_hits = add64 s.peer_hits 1 })
            >> (near_add (near_key pick.epoch key) (record { b = bytes })
                >> pure (ok (record { b = bytes })))
    ]

  -- The attempts of `Get` that are left, with the picker.
  unfoldable pub get_loop : Peers W → ℕ → Str → M W (Result ByteView)
  get_loop p zero key = pure (err topology_changed)
  get_loop p (suc left) key =
      let again = get_loop p left key in
      p.pick_owner key >>= λ pick.
      if not pick.ok || is_empty pick.owner
      then pure (err no_owner)
      else if pick.is_self
      then (get_local env key >>= λ r. elim r [
        | ok view ↦ pure (ok view)
        | err e ↦ if is_retry e then again else pure (err e)
      ])
      else if not pick.has_peer
      then pure (err (owner_error peer_unavailable pick.owner))
      else near_attempt p key pick >>= λ hit. elim hit [
        | some view ↦ pure (ok view)
        | none ↦ remote_get p left key pick again
      ]

  unfoldable pub get : Str → M W (Result ByteView)
  get key = do
    closed ← gets (λ g. g.closed)
    if closed
        then pure (err group_closed)
        else if is_empty key
        then pure (err key_required)
        else elim env.peers [ none ↦ get_local env key | some p ↦ get_loop p 4 key ]

  -- The end of an attempt of `Set` or `Delete`: whether the owner is still the one that was asked.
  unfoldable pub settle : Peers W → ℕ → Str → Pick → M W (Result (Str × ℕ)) → M W (Result (Str × ℕ))
  settle p left key pick again = p.pick_owner key >>= λ now.
      if is_stable now pick
      then pure (ok (pick.owner, pick.epoch))
      else elim left [ zero ↦ pure (err topology_changed) | suc _ ↦ again ]

  unfoldable pub remote_set :
      Peers W → ℕ → Str → Str → Pick → M W (Result (Str × ℕ)) → M W (Result (Str × ℕ))
  remote_set p left key value pick again = do
    name ← gets (λ g. g.name)
    r ← p.peer_set pick.owner name key value
    elim r [
      | ok _ ↦ settle p left key pick again
      | err e ↦ if is_retry e then retry p left pick again else pure (err (call_error e pick.owner))
    ]

  -- The attempts of `Set` that are left: the owner and the epoch after the loop. `owner` is that of
  -- the attempt before, which is what the loop leaves when it runs out.
  unfoldable pub set_loop : Peers W → ℕ → Str → Str → Str → M W (Result (Str × ℕ))
  set_loop p zero owner key value = pure (ok (owner, 0))
  set_loop p (suc left) owner key value = p.pick_owner key >>= λ pick.
      if not pick.ok || is_empty pick.owner
      then pure (err no_owner)
      else let again = set_loop p left pick.owner key value in
        if pick.is_self
        then (set_local env key value >>= λ r. elim r [
          | ok _ ↦ settle p left key pick again
          | err e ↦ if is_retry e then again else pure (err e)
        ])
        else if not pick.has_peer
        then pure (err (owner_error peer_unavailable pick.owner))
        else remote_set p left key value pick again

  unfoldable pub invalidate_local_copies : Str → M W (Unit {0})
  invalidate_local_copies key = elim env.peers [
    | none ↦ invalidate_near_key env key
    | some p ↦ p.pick_owner key >>= λ pick.
        (if pick.ok && (not (is_empty pick.owner) && not pick.is_self) then drop_main else pure tt)
        >> invalidate_near_key env key
  ]
    where
      drop_main : M W (Unit {0})
      drop_main g = elim (Cache.delete_key key g.main_cache) [
        | none ↦ none
        | some (c, _) ↦ some (record g { main_cache = c }, tt)
      ]

  unfoldable pub invalidate_peer_copies : Str → Str → M W (Unit {0})
  invalidate_peer_copies key owner = elim env.peers [
    | none ↦ pure tt
    | some p ↦ gets (λ g. g.name) >>= λ name. p.invalidate name key owner >>= λ failed.
        if failed
        then count (λ s. record s { invalidation_failures = add64 s.invalidation_failures 1 })
        else pure tt
  ]

  -- The copy that `Set` keeps of a value that it wrote at another node.
  unfoldable pub keep_copy : Str → Str → Str → ℕ → M W (Unit {0})
  keep_copy key value owner epoch = elim env.peers [
    | none ↦ pure tt
    | some p ↦ gets has_near >>= λ near.
        if not near || is_empty owner
        then pure tt
        else p.pick_owner key >>= λ now.
            if now.ok
              && (ite (str_dec now.owner owner) true false
                  && ((now.epoch == epoch) && not now.is_self))
            then near_add (near_key epoch key) (record { b = value })
            else pure tt
  ]

  -- `Set` after its loop.
  unfoldable pub finish_set : Str → Str → Result (Str × ℕ) → M W (Result (Unit {0}))
  finish_set key value (err e) = pure (err e)
  finish_set key value (ok (owner, epoch)) = do
    count (λ s. record s { sets = add64 s.sets 1 })
    invalidate_local_copies key
    invalidate_peer_copies key owner
    keep_copy key value owner epoch
    pure (ok tt)

  abbrev of_local : Result (Unit {0}) → Result (Str × ℕ)
  of_local (ok _) = ok ([], 0)
  of_local (err e) = err e

  unfoldable pub set : Str → Str → M W (Result (Unit {0}))
  set key value = do
    closed ← gets (λ g. g.closed)
    if closed
        then pure (err group_closed)
        else if is_empty key
        then pure (err key_required)
        else if is_empty value
        then pure (err value_required)
        else elim env.peers [
          | none ↦ set_local env key value >>= λ r. finish_set key value (of_local r)
          | some p ↦ set_loop p 4 [] key value >>= finish_set key value
        ]

  unfoldable pub remote_delete :
      Peers W → ℕ → Str → Pick → M W (Result (Str × ℕ)) → M W (Result (Str × ℕ))
  remote_delete p left key pick again = do
    name ← gets (λ g. g.name)
    r ← p.peer_delete pick.owner name key
    elim r [
      | ok _ ↦ settle p left key pick again
      | err e ↦ if is_retry e then retry p left pick again else pure (err (call_error e pick.owner))
    ]

  unfoldable pub delete_loop : Peers W → ℕ → Str → Str → M W (Result (Str × ℕ))
  delete_loop p zero owner key = pure (ok (owner, 0))
  delete_loop p (suc left) owner key = p.pick_owner key >>= λ pick.
      if not pick.ok || is_empty pick.owner
      then pure (err no_owner)
      else let again = delete_loop p left pick.owner key in
        if pick.is_self
        then (delete_local env key >>= λ _. settle p left key pick again)
        else if not pick.has_peer
        then pure (err (owner_error peer_unavailable pick.owner))
        else remote_delete p left key pick again

  unfoldable pub finish_delete : Str → Result (Str × ℕ) → M W (Result (Unit {0}))
  finish_delete key (err e) = pure (err e)
  finish_delete key (ok (owner, epoch)) = do
    count (λ s. record s { deletes = add64 s.deletes 1 })
    invalidate_local_copies key
    invalidate_peer_copies key owner
    pure (ok tt)

  unfoldable pub delete_key : Str → M W (Result (Unit {0}))
  delete_key key = do
    closed ← gets (λ g. g.closed)
    if closed
        then pure (err group_closed)
        else if is_empty key
        then pure (err key_required)
        else elim env.peers [
          | none ↦ delete_local env key >>= λ _. finish_delete key (ok ([], 0))
          | some p ↦ delete_loop p 4 [] key >>= finish_delete key
        ]
