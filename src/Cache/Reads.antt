-- ===== src/Cache/Reads.antt =====
-- What a caller of cache.go gets back.
use locache.Base.{
  ℕ, ◌+◌, ◌-◌, ◌^◌, ◌≤◌, ◌<◌, ◌≡◌, ◌⊎◌, inl, inr, refl, sym, ◌∙◌, ap, Option, none, some, false,
  arith, length, Option-cases,
}
use locache.Base.Words.{add64, gt64}
use locache.Base.Str.{Str}
use locache.Store.Lru.{Lru, is_past}
use locache.Store.Lru.Spec.{weigh}
use locache.Store.Lru.Invariant.{IsValid, view}
use locache.Store.Lru.Writes.{deadline_of}
use locache.Store.Lru.Promises.{get-set_with_expiration}
use locache.Store.Choice.{Store, single, spread}
use locache.Store.Lru
use locache.Store.Sharded
use locache.Store.Choice
use locache.Store.Choice.Backing.{backing, get-backing, set-backing}
use locache.Store.Choice.Backing
use locache.Cache.{
  ByteView, Value, view_value, foreign_value, size, Cache, add, add_with_expiration, get,
  delete_key, clear, len, close, counted, with_store,
}
use Prim.Native.Nat.{min}

-- How long the store is asked to keep a value.
abbrev pub lifetime : ℕ → ℕ → ℕ
lifetime expiration start = min (expiration - start) (2 ^ 63 - 1)

add_answer :
    (key : Str) (value : ByteView) (expiration start now later : ℕ) (c : Cache) (s : Store Value)
    → c.closed ≡ false
    → start < expiration
    → Choice.set_with_expiration size key
        (some (view_value value))
        (lifetime expiration start)
        now
        later
        c.store
      ≡ some s
    → add_with_expiration key value expiration start now later c ≡ some (record c { store = s })
unfolding add_with_expiration with_store
add_answer key value expiration start now later c s opened ahead stored = ground arith

pub get_answer :
    (key : Str) (now : ℕ) (c : Cache) (s : Store Value) (r : Option Value)
    → c.closed ≡ false
    → Choice.get size key now c.store ≡ some (s, r)
    → get key now c ≡ some (counted r (record c { store = s }))
unfolding get
get_answer key now c s r opened found = ground arith

module _ (key : Str) (value : ByteView) (expiration start now later : ℕ) (c : Cache) (l : Lru Value)
    (opened : c.closed ≡ false) (serves : backing key c.store ≡ some l) (v : IsValid size l)
    (word : l.max_bytes < 2 ^ 64)
    (small : weigh size (view l) + length key + length value.b < 2 ^ 63) where
  -- A `Get` after an `AddWithExpiration` to an open cache of either type returns the view, if key and
  -- bytes fit the limit of the LRU that serves the key, which is well-formed and whose weight with
  -- them fits an int64, and the deadline is still to come when the call starts, when the store evicts
  -- and when the read happens.
  pub get-add_with_expiration :
      (t : ℕ)
      → start < expiration
      → length key + length value.b ≤ l.max_bytes
      → is_past later (deadline_of (lifetime expiration start) now) ≡ false
      → is_past t (deadline_of (lifetime expiration start) now) ≡ false
      → (c' c'' : Cache) × ((add_with_expiration key value expiration start now later c ≡ some c')
          × (get key t c' ≡ some (c'', some value)))
  unfolding counted size
  get-add_with_expiration t ahead fits alive fine =
      let (s, (stored, serves')) =
        set-backing size key (some (view_value value)) (lifetime expiration start) now later c.store
          l serves in
      let (s', (found, _)) = get-backing size key t s _ serves' in
      let answer =
        get-set_with_expiration size key (view_value value) (lifetime expiration start) now later l
          v word small t fits alive fine in
      (
        record c { store = s },
        record c { store = s'; hits = add64 c.hits 1 },
        (
          add_answer key value expiration start now later c s opened ahead stored,
          get_answer key t (record c { store = s }) s' _ opened found
              ∙ ap (λ r. some (counted r (record c { store = s' }))) answer,
        ),
      )

set_key-set_with_expiration :
    (key : Str) (value : Option Value) (now later : ℕ) (s : Store Value)
    → Choice.set_key size key value now later s
      ≡ Choice.set_with_expiration size key value 0 now later s
unfolding Choice.set_key Choice.set_with_expiration Lru.set Sharded.set_key
    Sharded.set_with_expiration
set_key-set_with_expiration key value now later (single c) = refl
set_key-set_with_expiration key value now later (spread s) = refl

-- A `Get` after an `Add` returns the view, under the same conditions but those on a deadline.
pub get-add :
    (key : Str) (value : ByteView) (now later t : ℕ) (c : Cache) (l : Lru Value)
    → c.closed ≡ false
    → backing key c.store ≡ some l
    → IsValid size l
    → l.max_bytes < 2 ^ 64
    → weigh size (view l) + length key + length value.b < 2 ^ 63
    → length key + length value.b ≤ l.max_bytes
    → (c' c'' : Cache) × ((add key value now later c ≡ some c')
        × (get key t c' ≡ some (c'', some value)))
unfolding counted size add with_store gt64
get-add key value now later t c l opened serves v word small fits =
    let (s, (stored, serves')) =
      set-backing size key (some (view_value value)) 0 now later c.store l serves in
    let (s', (found, _)) = get-backing size key t s _ serves' in
    let answer =
      get-set_with_expiration size key (view_value value) 0 now later l v word small t fits refl
        refl in
    let kept =
      set_key-set_with_expiration key (some (view_value value)) now later c.store ∙ stored in
    (
      record c { store = s },
      record c { store = s'; hits = add64 c.hits 1 },
      (
        ground (arith, opened, kept),
        get_answer key t (record c { store = s }) s' _ opened found
            ∙ ap (λ r. some (counted r (record c { store = s' }))) answer,
      ),
    )

counted_cases :
    (r : Option Value) (c c' : Cache) (found : Option ByteView)
    → some (counted r c) ≡ some (c', found)
    → ((found ≡ none) × (c'.misses ≡ add64 c.misses 1) × (c'.hits ≡ c.hits))
      ⊎ ((v : ByteView) × ((found ≡ some v) × (c'.hits ≡ add64 c.hits 1) × (c'.misses ≡ c.misses)))
unfolding counted
counted_cases none c c' found e = inl (ground arith)
counted_cases (some (foreign_value n)) c c' found e = inl (ground arith)
counted_cases (some (view_value v)) c c' found e = inr (v, ground arith)

-- A `Get` that returns on an open cache either finds nothing and counts a miss, or finds a view and
-- counts a hit; the other counter stays.
pub get_counts :
    (key : Str) (now : ℕ) (c c' : Cache) (found : Option ByteView)
    → c.closed ≡ false
    → get key now c ≡ some (c', found)
    → ((found ≡ none) × (c'.misses ≡ add64 c.misses 1) × (c'.hits ≡ c.hits))
      ⊎ ((v : ByteView) × ((found ≡ some v) × (c'.hits ≡ add64 c.hits 1) × (c'.misses ≡ c.misses)))
unfolding get
get_counts key now c c' found opened e = elim (Option-cases (Choice.get size key now c.store)) [
  | inl panics ↦ absurd (ground arith)
  | inr ((s, r), read) ↦
      counted_cases r (record c { store = s }) c' found
        (sym (get_answer key now c s r opened read) ∙ e)
]

-- A closed cache answers nothing and changes nothing, and closing it again does nothing.
pub close_silences :
    (key : Str) (value : ByteView) (expiration start now later : ℕ) (c : Cache)
    → (get key now (close c) ≡ some (close c, none))
      × (add key value now later (close c) ≡ some (close c))
      × (add_with_expiration key value expiration start now later (close c) ≡ some (close c))
      × (delete_key key (close c) ≡ some (close c, false))
      × (clear (close c) ≡ close c)
      × (len (close c) ≡ 0)
      × (close (close c) ≡ close c)
unfolding get add add_with_expiration delete_key clear len close
close_silences key value expiration start now later c = ground arith

abbrev emptied : Cache → Cache
emptied c = record c { store = Choice.clear size c.store; hits = 0; misses = 0 }

clear-emptied : (c : Cache) → c.closed ≡ false → clear c ≡ emptied c
unfolding clear
clear-emptied c opened = ground arith

-- An open cache that was cleared finds nothing.
pub get-clear :
    (key : Str) (now : ℕ) (c : Cache) (l : Lru Value)
    → c.closed ≡ false
    → backing key c.store ≡ some l
    → (c' : Cache) × (get key now (clear c) ≡ some (c', none))
unfolding counted
get-clear key now c l opened serves =
    let (s, missed) = Backing.get-clear size key now c.store l serves in
    (
      record c { store = s; hits = 0; misses = add64 0 1 },
      ap (get key now) (clear-emptied c opened)
          ∙ get_answer key now (emptied c) s none opened missed,
    )
