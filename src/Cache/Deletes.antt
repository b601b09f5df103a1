-- ===== src/Cache/Deletes.antt =====
-- `Delete` of cache.go over a store that has an LRU for the key.
use locache.Base.{leb, ℕ, none, ◌∙◌, ap, ◌≡◌, some, Bool, false, Bool-cases, inl, inr, arith}
use locache.Base.Str.{Str}
use locache.Store.Lru.{Lru}
use locache.Store.Choice.Backing.{backing, delete_key-backing, get-backing, set-backing}
use locache.Cache.{
  ByteView, add_with_expiration, with_store, view_value, Value, size, Cache, delete_key, get,
  counted,
}
use locache.Cache.Reads.{lifetime, get_answer}
use locache.Base.Words.{add64}
use locache.Store.Lru.Invariant.{IsValid}
use locache.Store.Lru.Promises

-- The cache has an LRU for the key.
abbrev pub Serves : Str → Cache → Type 0
Serves key c = (l : Lru Value) × (backing key c.store ≡ some l)

-- A `Delete` returns, and there is an LRU for the key after it.
pub delete_key-Serves :
    (key : Str) (c : Cache)
    → Serves key c
    → (c' : Cache) × (removed : Bool) × ((delete_key key c ≡ some (c', removed)) × Serves key c')
unfolding delete_key
delete_key-Serves key c (l, serves) = elim (Bool-cases c.closed) [
  | inl shut ↦ (c, false, (ground (arith, shut), (l, serves)))
  | inr opened ↦
      let (s, removed, (done, left)) = delete_key-backing size key c.store l serves in
      (record c { store = s }, removed, (ground (arith, opened, done), (_, left)))
]

-- A `Get` after a `Delete` finds nothing, and leaves an LRU for the key.
pub get-delete_key :
    (key : Str) (t : ℕ) (c : Cache) (l : Lru Value)
    → c.closed ≡ false
    → backing key c.store ≡ some l
    → IsValid size l
    → (c' c'' : Cache) × (removed : Bool) × ((delete_key key c ≡ some (c', removed))
        × (get key t c' ≡ some (c'', none))
        × Serves key c'')
unfolding delete_key counted
get-delete_key key t c l opened serves v =
    let (s, removed, (done, left)) = delete_key-backing size key c.store l serves in
    let (s', (found, serves')) = get-backing size key t s _ left in
    (
      record c { store = s },
      record c { store = s'; misses = add64 c.misses 1 },
      removed,
      (
        ground (arith, opened, done),
        get_answer key t (record c { store = s }) s' _ opened found
            ∙ ap (λ r. some (counted r (record c { store = s' })))
                (Promises.get-delete_key size key t l v),
        (_, serves'),
      ),
    )

-- A value can be added where there is an LRU for the key.
pub Serves-add_with_expiration :
    (key : Str) (value : ByteView) (expiration start now later : ℕ) (c : Cache)
    → Serves key c
    → (c' : Cache) × (add_with_expiration key value expiration start now later c ≡ some c')
unfolding add_with_expiration with_store
Serves-add_with_expiration key value expiration start now later c (l, serves) =
    let (s, (stored, _)) =
      set-backing size key (some (view_value value)) (lifetime expiration start) now later c.store l
        serves in
    elim (Bool-cases c.closed) [
      | inl shut ↦ (c, ground (arith, shut))
      | inr opened ↦ elim (Bool-cases (leb expiration start)) [
        | inl past ↦ (c, ground (arith, opened, past))
        | inr ahead ↦ (record c { store = s }, ground (arith, opened, ahead, stored))
      ]
    ]
