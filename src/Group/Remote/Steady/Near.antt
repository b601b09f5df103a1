-- ===== src/Group/Remote/Steady/Near.antt =====
-- The near cache of group.go, which spares requests to the owner of a key.
use locache.Base.{
  ℕ, ◌+◌, ◌^◌, ◌≤◌, ◌<◌, ◌≡◌, refl, ◌∙◌, ap, Option, none, some, ◌∷◌, false, arith, length,
}
use locache.Base.Words.{add64, gt64}
use locache.Base.Str.{Str}
use locache.Store.Lru.{Lru, is_past}
use locache.Store.Lru.Spec.{weigh}
use locache.Store.Lru.Invariant.{IsValid, view}
use locache.Store.Lru.Writes.{deadline_of}
use locache.Store.Choice.Backing.{backing}
use locache.Cache.{Cache, ByteView, Value, size}
use locache.Cache
use locache.Cache.Reads
use locache.Cache.Reads.{lifetime}
use locache.Group.State.{Result, ok, Group, M, Peers, >>=-some, else_step}
use locache.Group.Local.{is_empty, near_key}
use locache.Group.Local.Owner.{still}
use locache.Group.Remote.{get, get_loop, near_get, near_attempt, near_add}
use locache.Group.Remote.Steady.{other_pick, stable_self}
use locache.Group.Remote.Steady.Reads.{get_asks, peer_hit}

copy_alive :
    (now ttl : ℕ)
    → 0 < ttl
    → ttl < 2 ^ 63
    → is_past now (deadline_of (lifetime (now + ttl) now) now) ≡ false
unfolding gt64
copy_alive now ttl some_time word = ground arith

abbrev pub near_miss : {W : Type 0} → Cache → Group W → Group W
near_miss c g = record g {
  near_cache = some c;
  stats = record (g.stats) { near_misses = add64 g.stats.near_misses 1 };
}

abbrev near_hit : {W : Type 0} → Cache → Group W → Group W
near_hit c g = record g {
  near_cache = some c;
  stats = record (g.stats) { near_hits = add64 g.stats.near_hits 1 };
}

-- A picker that names another node as the owner of the key, wherever `Same` holds of what lies outside.
module _ {W : Type 0} (now : ℕ) (getter : Option (Str → M W (Result Str))) (p : Peers W)
    (key owner : Str) (epoch : ℕ) (Same : W → Type 0) (named : is_empty owner ≡ false)
    (steady : (h : Group W)
      → Same h.world
      → p.pick_owner key h ≡ some (h, other_pick owner epoch)) where
  pub near_missed :
      (g : Group W) (c c' : Cache)
      → g.near_cache ≡ some c
      → Cache.get (near_key epoch key) now c ≡ some (c', none)
      → near_attempt (still now (some p) getter) p key (other_pick owner epoch) g
        ≡ some (near_miss c' g, none)
  unfolding near_attempt near_get
  near_missed g c c' has missing = ground (arith, has, missing)

  near_found :
      (g : Group W) (c c' : Cache) (v : ByteView)
      → g.near_cache ≡ some c
      → Cache.get (near_key epoch key) now c ≡ some (c', some v)
      → Same g.world
      → near_attempt (still now (some p) getter) p key (other_pick owner epoch) g
        ≡ some (near_hit c' g, some v)
  unfolding near_attempt near_get
  near_found g c c' v has found same =
      ground (
        arith,
        has,
        found,
        steady (record g { near_cache = some c' }) same,
        stable_self owner epoch,
      )

  pub near_kept :
      (g : Group W) (c c' : Cache) (v : ByteView)
      → g.near_cache ≡ some c
      → Cache.add_with_expiration (near_key epoch key) v (now + g.near_ttl) now now now c ≡ some c'
      → near_add (still now (some p) getter) (near_key epoch key) v g
        ≡ some (record g { near_cache = some c' }, tt)
  unfolding near_add
  near_kept g c c' v has added = ground (arith, has, added)

  -- A `Get` that the near cache can answer asks nobody.
  near_answered :
      (k : ℕ) (rest : Str) (g : Group W) (c c' : Cache) (v : ByteView)
      → key ≡ k ∷ rest
      → g.closed ≡ false
      → Same g.world
      → g.near_cache ≡ some c
      → Cache.get (near_key epoch key) now c ≡ some (c', some v)
      → get (still now (some p) getter) key g ≡ some (near_hit c' g, ok v)
  unfolding get get_loop
  near_answered k rest g c c' v full opened same has found = else_step _ _ _ g _ opened (
      else_step _ _ _ g _ (ap is_empty full) (
        >>=-some (p.pick_owner key) _ g g (other_pick owner epoch) (steady g same)
        ∙ else_step _ _ _ g _ named (
            >>=-some (near_attempt (still now (some p) getter) p key (other_pick owner epoch)) _ g
              (near_hit c' g) (some v) (near_found g c c' v has found same))))

  -- The owner of a key is asked once. While the picker names another node as the owner of the key, under
  -- one epoch, a Get on an open group whose near cache does not find the key, and whose owner answers
  -- with bytes that fit the near cache together with the key, returns the bytes; and a second Get at the
  -- same instant returns them again, without a request, where the lifetime of near copies is positive,
  -- and the near cache is open after its miss, over a well-formed LRU.
  pub get_once :
      (k : ℕ) (rest bytes : Str) (g : Group W) (w : W) (c c0 : Cache) (l : Lru Value)
      → key ≡ k ∷ rest
      → g.closed ≡ false
      → Same g.world
      → g.near_cache ≡ some c
      → Cache.get (near_key epoch key) now c ≡ some (c0, none)
      → ((h : Group W)
          → h.world ≡ g.world
          → p.peer_get owner h.name key h ≡ some (record h { world = w }, ok bytes))
      → Same w
      → 0 < g.near_ttl
      → g.near_ttl < 2 ^ 63
      → c0.closed ≡ false
      → backing (near_key epoch key) c0.store ≡ some l
      → IsValid size l
      → l.max_bytes < 2 ^ 64
      → weigh size (view l) + length (near_key epoch key) + length bytes < 2 ^ 63
      → length (near_key epoch key) + length bytes ≤ l.max_bytes
      → (g' g'' : Group W) × ((get (still now (some p) getter) key g
            ≡ some (g', ok (record { b = bytes })))
          × (g'.world ≡ w)
          × (get (still now (some p) getter) key g' ≡ some (g'', ok (record { b = bytes })))
          × (g''.world ≡ w))
  get_once k rest bytes g w c c0 l full opened same has missing asks same' alive word' unshut backs
        valid word small fits =
      let (c1, c2, (added, found)) =
        Reads.get-add_with_expiration (near_key epoch key) (record { b = bytes }) (now + g.near_ttl)
          now now now c0 l unshut backs valid word small now (omega (arith, alive)) fits
          (copy_alive now g.near_ttl alive word') (copy_alive now g.near_ttl alive word') in
      let g1 = peer_hit (record (near_miss c0 g) { world = w }) in
      (
        record g1 { near_cache = some c1 },
        near_hit c2 (record g1 { near_cache = some c1 }),
        (
          get_asks now getter p key owner epoch Same named steady k rest bytes g (near_miss c0 g) _
              w full opened same (near_missed g c c0 has missing) (asks (near_miss c0 g) refl) same'
              (near_kept g1 c0 c1 (record { b = bytes }) refl added),
          refl,
          near_answered k rest (record g1 { near_cache = some c1 }) c1 c2 (record { b = bytes })
              full opened same' refl found,
          refl,
        ),
      )
