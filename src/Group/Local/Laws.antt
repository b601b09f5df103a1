-- ===== src/Group/Local/Laws.antt =====
-- The owner's side of group.go: keys of the near cache, states of keys, and epochs.
use locache.Base.{
  ℕ, suc, ◌+◌, ◌<◌, ◌^◌, ◌≡◌, ◌≢◌, refl, sym, ◌∙◌, ap, if_pos, if_neg, none, some, false, arith,
  ℕ_discrete,
}
use locache.Base.Words.{add64, sub64}
use locache.Base.Str.{Str}
use locache.Base.Map.{lookup, insert, delete, lookup-insert, lookup-delete}
use locache.Base.Decimal.Laws.{decimal_colon-inj}
use locache.Cache.{Cache, Value}
use locache.Cache
use locache.Store.Lru.{Lru}
use locache.Store.Choice.Backing.{backing}
use locache.Cache.Reads.{get-clear}
use locache.Group.State.{KeyMutationState, Group, ◌>>=◌, >>=-some}
use locache.Group.Local.{near_key, acquire_key_state, release_key_state, set_state, enter_epoch}

-- The keys of the near cache of different epochs, or of different keys, differ.
pub near_key-inj :
    (epoch epoch' : ℕ) (key key' : Str)
    → near_key epoch key ≡ near_key epoch' key'
    → (epoch ≡ epoch') × (key ≡ key')
unfolding near_key
near_key-inj epoch epoch' key key' e = decimal_colon-inj epoch epoch' key key' e

pub set_state_self :
    (f : ℕ → KeyMutationState) (p : ℕ) (s : KeyMutationState) → set_state f p s p ≡ s
set_state_self f p s = elim (ℕ_discrete p p) [
  | yes e ↦ if_pos (ℕ_discrete p p) e s (f p)
  | no ne ↦ absurd (ne refl)
]

set_state_other :
    (f : ℕ → KeyMutationState) (p q : ℕ) (s : KeyMutationState) → p ≢ q → set_state f p s q ≡ f q
set_state_other f p q s ne = if_neg (ℕ_discrete p q) ne s (f q)

module _ {W : Type 0} (key : Str) (g : Group W) where
  -- The group with a new state for the key, and with one more reference to its state.
  abbrev pub fresh_state : Group W
  fresh_state = record g {
    key_states = insert key g.next_state g.key_states;
    states = set_state g.states g.next_state (record { generation = 0; refs = 1 });
    next_state = suc g.next_state;
  }

  abbrev pub shared_state : ℕ → Group W
  shared_state p = record g {
    states = set_state g.states p (record (g.states p) { refs = add64 (g.states p).refs 1 });
  }

  pub acquire_fresh :
      lookup key g.key_states ≡ none → acquire_key_state key g ≡ some (fresh_state, g.next_state)
  unfolding acquire_key_state
  acquire_fresh e = rw (e, acquire_key_state) refl

  pub acquire_shared :
      (p : ℕ)
      → lookup key g.key_states ≡ some p
      → acquire_key_state key g ≡ some (shared_state p, p)
  unfolding acquire_key_state
  acquire_shared p e = rw (e, acquire_key_state) refl

  -- What giving back a reference leaves of the states and of the map.
  abbrev given_back : ℕ → ℕ → KeyMutationState
  given_back p = set_state g.states p (record (g.states p) { refs = sub64 (g.states p).refs 1 })

  release_last :
      (p : ℕ)
      → sub64 (g.states p).refs 1 ≡ 0
      → lookup key g.key_states ≡ some p
      → release_key_state key p g
        ≡ some (record g { states = given_back p; key_states = delete key g.key_states }, tt)
  unfolding release_key_state
  release_last p last held =
      ap (λ m. some (record g { states = given_back p; key_states = m }, tt)) (ground arith)

  release_more :
      (p : ℕ)
      → sub64 (g.states p).refs 1 ≢ 0
      → release_key_state key p g ≡ some (record g { states = given_back p }, tt)
  unfolding release_key_state
  release_more p more =
      ap (λ m. some (record g { states = given_back p; key_states = m }, tt)) (ground arith)

-- One reference more and one less is the state again.
shared_back :
    (s : KeyMutationState)
    → s.refs + 1 < 2 ^ 63
    → ◌≡◌ {A = KeyMutationState} (record s { refs = sub64 (add64 s.refs 1) 1 }) s
unfolding add64 sub64
shared_back s few = ap (λ n. record s { refs = n }) (omega arith)

abbrev one_less : {W : Type 0} → Group W → ℕ → KeyMutationState
one_less g p = record (g.states p) { refs = sub64 (g.states p).refs 1 }

states_back :
    {W : Type 0} (key : Str) (g : Group W) (p q : ℕ)
    → (g.states p).refs + 1 < 2 ^ 63
    → given_back key (shared_state key g p) p q ≡ g.states q
states_back key g p q few = elim (ℕ_discrete p q) [
  | no ne ↦
      set_state_other (shared_state key g p).states p q (one_less (shared_state key g p) p) ne
      ∙ set_state_other g.states p q (record (g.states p) { refs = add64 (g.states p).refs 1 }) ne
  | yes e ↦
      ap (given_back key (shared_state key g p) p) (sym e)
      ∙ set_state_self (shared_state key g p).states p (one_less (shared_state key g p) p)
      ∙ ap (λ (s : KeyMutationState). record s { refs = sub64 s.refs 1 })
          (set_state_self g.states p (record (g.states p) { refs = add64 (g.states p).refs 1 }))
      ∙ shared_back (g.states p) few
      ∙ ap g.states e
]

module _ {W : Type 0} (key : Str) (g : Group W) where
  -- A state that one call alone used leaves the map when the call gives it back: the map has the
  -- keys and pointers that it had before.
  pub release-acquire_fresh :
      lookup key g.key_states ≡ none
      → (g' : Group W) × (((acquire_key_state key >>= release_key_state key) g ≡ some (g', tt))
          × ((j : Str) → lookup j g'.key_states ≡ lookup j g.key_states))
  unfolding sub64
  release-acquire_fresh fresh = (
    record (fresh_state key g) {
      states = given_back key (fresh_state key g) g.next_state;
      key_states = delete key (insert key g.next_state g.key_states);
    },
    (
      >>=-some (acquire_key_state key) (release_key_state key) g (fresh_state key g) g.next_state
            (acquire_fresh key g fresh)
          ∙ (release_last key (fresh_state key g) g.next_state last
              (ground (arith, lookup-insert key key g.next_state g.key_states))),
      λ j. ground (
        arith,
        lookup-delete j key (insert key g.next_state g.key_states),
        lookup-insert j key g.next_state g.key_states,
      ),
    ),
  )
    where
      last : sub64 ((fresh_state key g).states g.next_state).refs 1 ≡ 0
      last =
          ap (λ (s : KeyMutationState). sub64 s.refs 1)
            (set_state_self g.states g.next_state (record { generation = 0; refs = 1 }))

  -- A state that others hold stays in the map, with its generation and its count of references, when
  -- one more call takes it and gives it back, if that count is positive and fits an int with the
  -- call.
  pub release-acquire_shared :
      (p : ℕ)
      → lookup key g.key_states ≡ some p
      → 0 < (g.states p).refs
      → (g.states p).refs + 1 < 2 ^ 63
      → (g' : Group W) × (((acquire_key_state key >>= release_key_state key) g ≡ some (g', tt))
          × ((g'.key_states ≡ g.key_states) × ((q : ℕ) → g'.states q ≡ g.states q)))
  release-acquire_shared p held some_refs few = (
    record (shared_state key g p) { states = given_back key (shared_state key g p) p },
    (
      >>=-some (acquire_key_state key) (release_key_state key) g (shared_state key g p) p
            (acquire_shared key g p held)
          ∙ (release_more key (shared_state key g p) p (λ e. omega (
            arith,
            ap (λ (s : KeyMutationState). s.refs) (states_back key g p p few),
            sym (
                ap (λ (s : KeyMutationState). s.refs)
                  (set_state_self (shared_state key g p).states p _)),
            e,
          ))),
      (refl, λ q. states_back key g p q few),
    ),
  )

enter_epoch-clear :
    {W : Type 0} (epoch : ℕ) (g : Group W)
    → g.owner_epoch ≢ 0
    → g.owner_epoch ≢ epoch
    → (enter_epoch epoch g).main_cache ≡ Cache.clear g.main_cache
unfolding enter_epoch
enter_epoch-clear epoch g used moved = ground arith

-- When the membership has changed since the epoch that the group last owned keys in, no entry of
-- before is found any more: after the group has entered the new epoch, a read of any key of its open
-- cache, which has an LRU for the key, misses.
pub get-enter_epoch :
    {W : Type 0} (key : Str) (now epoch : ℕ) (g : Group W) (l : Lru Value)
    → g.main_cache.closed ≡ false
    → backing key g.main_cache.store ≡ some l
    → g.owner_epoch ≢ 0
    → g.owner_epoch ≢ epoch
    → (c : Cache) × (Cache.get key now (enter_epoch epoch g).main_cache ≡ some (c, none))
get-enter_epoch key now epoch g l opened serves used moved =
    let (c, missed) = get-clear key now g.main_cache l opened serves in
    (c, ap (Cache.get key now) (enter_epoch-clear epoch g used moved) ∙ missed)
