-- ===== src/Group/Local/Races.antt =====
-- A write that comes while `getLocal` of group.go loads the key from the source.
use locache.Base.{
  ℕ, ◌+◌, ◌-◌, ◌^◌, ◌≤◌, ◌<◌, ◌≡◌, refl, ◌∙◌, ap, Option, none, some, false, ◌==◌, arith, length,
}
use locache.Base.Words.{add64, gt64}
use locache.Base.Str.{Str}
use locache.Base.Map.{lookup}
use locache.Cache.{Cache, ByteView, Value, size}
use locache.Cache
use locache.Cache.Reads.{get-add}
use locache.Store.Lru.{Lru}
use locache.Store.Lru.Spec.{weigh}
use locache.Store.Lru.Invariant.{IsValid, view}
use locache.Store.Choice.Backing.{backing}
use locache.Group.State.{
  Result, ok, KeyMutationState, Group, M, pure, ◌>>=◌, Env, >>=-some, else_step,
}
use locache.Group.Local.{
  with_main, set_state, acquire_key_state, release_key_state, bump_generation, main_get,
  add_owner_value, invalidate_near_key, prepare_local_owner, has_moved, fill, load_source,
  set_local,
}
use locache.Group.Local.Owner.{still, near_alone}
use locache.Group.Local.Owner.Calls.{add_forever}
use locache.Group.Local.Laws.{acquire_shared, shared_state, set_state_self}

-- A group without peers, whose clock stands at `now`.
abbrev pub alone : {W : Type 0} → ℕ → Option (Str → M W (Result Str)) → Env W
alone now getter = still now none getter

-- A source that is overtaken: while it reads the old bytes, the key is set to new ones.
abbrev pub overtaken : {W : Type 0} → ℕ → Str → Str → Str → M W (Result Str)
overtaken now value old key = set_local (alone now none) key value >>= λ _. pure (ok old)

module _ {W : Type 0} (now : ℕ) (getter : Option (Str → M W (Result Str))) (key value : Str)
    (g : Group W) (p : ℕ) (c : Cache) (opened : g.closed ≡ false)
    (held : lookup key g.key_states ≡ some p) (forever : gt64 g.expiration 0 ≡ false)
    (added : Cache.add key (record { b = value }) now now g.main_cache ≡ some c) where
  abbrev bumped : Group W
  bumped =
      let g1 = shared_state key g p in
      record g1 {
        states =
            set_state g1.states p
              (record (g1.states p) { generation = add64 (g1.states p).generation 1 });
      }

  abbrev written : Group W
  written = record bumped { main_cache = c }

  -- The write goes through, stores the value, and moves the generation on.
  overtake :
      (g' : Group W) × ((set_local (alone now getter) key value g ≡ some (g', ok tt))
        × (g'.main_cache ≡ c)
        × ((g'.states p).generation ≡ add64 (g.states p).generation 1))
  unfolding set_local prepare_local_owner bump_generation release_key_state
  overtake = (
    _,
    (
      else_step _ _ _ g _ opened (
          >>=-some (acquire_key_state key) _ g (shared_state key g p) p
            (acquire_shared key g p held)
          ∙ >>=-some (add_owner_value (alone now getter) key (record { b = value })) _ bumped
              written tt (add_forever now none getter key value c bumped forever added)
          ∙ >>=-some (invalidate_near_key (alone now getter) key) _ written written tt
              (near_alone now getter key written)),
      refl,
      ap (λ (k : KeyMutationState). k.generation) (set_state_self written.states p _)
          ∙ ap (λ (k : KeyMutationState). k.generation)
              (set_state_self (shared_state key g p).states p _)
          ∙ ap (λ (k : KeyMutationState). add64 k.generation 1) (set_state_self g.states p _),
    ),
  )

moved_on : (n : ℕ) → (add64 n 1 == n) ≡ false
unfolding add64
moved_on n = ground arith

-- What is left of a load when the source has answered.
fill_moved :
    {W : Type 0} (env : Env W) (key : Str) (p start : ℕ) (bytes : Str) (g : Group W) (now : ℕ)
    (c c' : Cache) (found : ByteView)
    → env.clock g ≡ some (g, now)
    → ((g.states p).generation == start) ≡ false
    → Cache.get key now g.main_cache ≡ some (c', some found)
    → fill env key p start bytes g ≡ some (record g { main_cache = c' }, ok found)
unfolding fill main_get
fill_moved env key p start bytes g now c c' found clock moved read = else_step _ _ _ g _ moved (
    >>=-some (main_get env key) _ g (record g { main_cache = c' }) (some found)
      (>>=-some env.clock _ g g now clock ∙ ap (with_main g) read))

-- A write that overtakes a load of the same key wins: where the source gives its old bytes only after a
-- `Set` of the key went through, the load answers with the value of that `Set`, and leaves the cache as
-- the `Set` and a `Get` of the key leave it, so that the old bytes are never stored. This is for an open
-- group without peers and without a default lifetime, whose loader holds the state of the key, and
-- whose cache is open and served by a well-formed LRU in which key and value fit.
pub write_wins :
    {W : Type 0} (now : ℕ) (key value old : Str) (epoch p : ℕ) (g : Group W) (l : Lru Value)
    → g.closed ≡ false
    → gt64 g.expiration 0 ≡ false
    → lookup key g.key_states ≡ some p
    → g.main_cache.closed ≡ false
    → backing key g.main_cache.store ≡ some l
    → IsValid size l
    → l.max_bytes < 2 ^ 64
    → weigh size (view l) + length key + length value < 2 ^ 63
    → length key + length value ≤ l.max_bytes
    → let source = overtaken now value old in
      (g' : Group W) × ((load_source (alone now (some source)) source key p epoch g
          ≡ some (g', ok (record { b = value })))
        × (c : Cache) × ((Cache.add key (record { b = value }) now now g.main_cache ≡ some c)
            × (Cache.get key now c ≡ some (g'.main_cache, some (record { b = value })))))
unfolding load_source has_moved
write_wins {W} now key value old epoch p g l opened forever held live serves v word small fits =
    let (c, c', (added, read)) =
      get-add key (record { b = value }) now now now g.main_cache l live serves v word small fits in
    let (g4, (done, cache, generation)) =
      overtake now none key value (counting g) p c opened held forever added in
    (
      _,
      (
        >>=-some (overtaken now value old key) _ (counting g) g4 (ok old)
              (>>=-some (set_local (alone now none) key value) _ (counting g) g4 (ok tt) done)
            ∙ fill_moved (alone now (some (overtaken now value old))) key p (g.states p).generation
                old (timed g4) now c c' (record { b = value }) refl
                (ap (λ n. n == (g.states p).generation) generation
                  ∙ moved_on (g.states p).generation)
                (ap (Cache.get key now) cache ∙ read),
        c,
        (added, read),
      ),
    )
  where
    counting : Group W → Group W
    counting h = record h {
      stats = record (h.stats) { source_loads = add64 h.stats.source_loads 1 };
    }

    timed : Group W → Group W
    timed h = record h {
      stats = record (h.stats) { source_duration = add64 h.stats.source_duration (now - now) };
    }
