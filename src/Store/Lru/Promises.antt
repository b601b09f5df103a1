-- ===== src/Store/Lru/Promises.antt =====
-- What a caller of store/lru.go reads after a write.
use locache.Base.{
  ℕ, ◌+◌, ◌^◌, ◌≤◌, ◌<◌, ◌≡◌, ◌≢◌, ◌⊎◌, sym, ◌∙◌, ap, none, some, List, [], ◌∷◌, arith, false,
  length,
}
use locache.Base.Str.{Str}
use locache.Base.Map.{Map}
use locache.Store.Lru.Elems.{Elem, Distinct}
use locache.Store.Lru.{Lru, is_past, get, set_with_expiration, delete_key}
use locache.Store.Lru.Spec.{Entry, find, answer, weigh}
use locache.Store.Lru.Spec.Laws.{Once, find-without_self, find-write_ne, find-write_self}
use locache.Store.Lru.Invariant.{IsValid, view, entries, find-entries}
use locache.Store.Lru.Reads.{get-read, delete_key-IsValid, delete_key-without}
use locache.Store.Lru.Writes.{set_with_expiration-IsValid, set_with_expiration-write, deadline_of}

module _ {V : Type 0} (size : V → ℕ) where
  entries-Once : (m : Map ℕ) (n : ℕ) (l : List (Elem V)) → Distinct n l → Once (entries m l)
  unfolding entries
  entries-Once m n [] d = tt
  entries-Once m n (x ∷ l) d = (rw (find-entries size m x.key l) (rw d.2), entries-Once m n l d.3)

  answer_found :
      (k : Str) (t : ℕ) (l : List (Entry V)) {e : Entry V}
      → find k l ≡ some e
      → is_past t e.deadline ≡ false
      → answer k t l ≡ some e.value
  unfolding answer
  answer_found k t l {e} h fine = ground arith

  -- What is stored for another key is answered as before, or not at all.
  answer_kept :
      (j : Str) (t : ℕ) (l l' : List (Entry V))
      → (find j l' ≡ none) ⊎ (find j l' ≡ find j l)
      → (answer j t l' ≡ none) ⊎ (answer j t l' ≡ answer j t l)
  unfolding answer
  answer_kept j t l l' h = ground arith

  module _ (k : Str) (value : V) (expiration now later : ℕ) (c : Lru V) (v : IsValid size c)
      (word : c.max_bytes < 2 ^ 64)
      (small : weigh size (view c) + length k + size value < 2 ^ 63) where
    -- On a well-formed store whose limit is below 2^64 and whose weight with key and value is below
    -- 2^63: a `Get` after a write of the key returns the value written, if key and value fit the limit
    -- together and the deadline has come neither when the write evicts nor when the read happens.
    pub get-set_with_expiration :
        (t : ℕ)
        → length k + size value ≤ c.max_bytes
        → is_past later (deadline_of expiration now) ≡ false
        → is_past t (deadline_of expiration now) ≡ false
        → (get size k t (set_with_expiration size k (some value) expiration now later c)).1
          ≡ some value
    get-set_with_expiration t fits alive fine =
        (get-read size k t _
          (set_with_expiration-IsValid size k (some value) expiration now later c v)).1
        ∙ ap (answer k t)
            (set_with_expiration-write size k value expiration now later c v word small)
        ∙ answer_found k t _ (find-write_self size c.max_bytes _ later (view c) alive fits) fine

    -- On a well-formed store whose limit is below 2^64 and whose weight with key and value of a write
    -- is below 2^63: a `Get` of another key after the write answers as it would have before it, or finds
    -- nothing.
    pub get-set_with_expiration_ne :
        (j : Str) (t : ℕ)
        → j ≢ k
        → let after = set_with_expiration size k (some value) expiration now later c in
          ((get size j t after).1 ≡ none) ⊎ ((get size j t after).1 ≡ (get size j t c).1)
    get-set_with_expiration_ne j t ne =
        rw
          (
            (get-read size j t _
                (set_with_expiration-IsValid size k (some value) expiration now later c v)).1,
            set_with_expiration-write size k value expiration now later c v word small,
            (get-read size j t c v).1,
          )
          (answer_kept j t (view c) _ (
            find-write_ne size j c.max_bytes
              (record { key = k; value = value; deadline = deadline_of expiration now }) later
              (view c) (entries-Once c.expires c.next_ref c.list v.distinct) (λ p. ne (sym p))))

  -- A `Get` after a `Delete` of the key finds nothing.
  pub get-delete_key :
      (k : Str) (t : ℕ) (c : Lru V)
      → IsValid size c
      → (get size k t (delete_key size k c).0).1 ≡ none
  unfolding answer
  get-delete_key k t c v =
      (get-read size k t _ (delete_key-IsValid size k c v)).1
      ∙ ap (answer k t) (delete_key-without size k c v).0
      ∙ ground (arith, find-without_self k (view c))
