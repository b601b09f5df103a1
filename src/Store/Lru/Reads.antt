-- ===== src/Store/Lru/Reads.antt =====
-- The reads of store/lru.go against the sequence of entries.
use locache.Base.{
  ℕ, ◌<◌, ◌-◌, ◌^◌, ◌≡◌, sym, ◌∙◌, if_pos, Option, none, some, List, [], ◌∷◌, ◌++◌, arith,
  Option-cases, inl, inr, Bool-cases, Bool, true, false, if◌then◌else◌,
}
use Prim.Native.Nat.{min}
use locache.Base.Str.{Str, str_dec}
use locache.Base.Map.{lookup}
use locache.Store.Lru.Elems.{Elem, remove_ref, move_to_back, find_key, Distinct}
use locache.Store.Lru.Elems.Laws.{
  find_key-key, find_ref-find_key, remove_ref-Distinct, find_key-remove, find_key-append,
  append-Distinct, find_ref-remove_self,
}
use locache.Store.Lru.{Lru, is_past, remove_element, get, get_with_expiration, delete_key}
use locache.Store.Lru.Spec.{Entry, find, without, read, answer}
use locache.Store.Lru.Invariant.{
  IsValid, view, find_elem-find_key, remove_element-IsValid, remove_element-view, entries-remove,
  entries-append, find-entries, total-remove, total-append, without_absent,
}

module _ {V : Type 0} (size : V → ℕ) where
  pub ref_lt :
      (n : ℕ) (k : Str) (l : List (Elem V)) {e : Elem V}
      → Distinct n l
      → find_key k l ≡ some e
      → e.ref < n
  unfolding find_key
  ref_lt n k [] d h = cc
  ref_lt n k (x ∷ l) {e} d h = ground (arith, ref_lt n k l {e = e} d.3)

  module _ (k : Str) (c : Lru V) {e : Elem V} (v : IsValid size c)
      (h : find_key k c.list ≡ some e) where
    pub move_to_back-found : move_to_back e.ref c.list ≡ remove_ref e.ref c.list ++ e ∷ []
    unfolding move_to_back
    move_to_back-found = rw (find_ref-find_key c.next_ref k c.list v.distinct h, move_to_back)

    find_key-moved : (j : Str) → find_key j (move_to_back e.ref c.list) ≡ find_key j c.list
    find_key-moved j = rw move_to_back-found (
        ground (
          arith,
          find_key-append j (remove_ref e.ref c.list) e,
          find_key-remove c.next_ref j k c.list {e = e} v.distinct h,
          find_key-key k c.list {e = e} h,
        ))

    moved-IsValid : IsValid size (record c { list = move_to_back e.ref c.list })
    moved-IsValid = record {
      distinct = rw move_to_back-found (
          append-Distinct c.next_ref (remove_ref e.ref c.list) e
            (remove_ref-Distinct c.next_ref e.ref c.list v.distinct)
            (ref_lt c.next_ref k c.list v.distinct h)
            (find_ref-remove_self c.next_ref e.ref c.list v.distinct)
            (find_key-remove c.next_ref e.key k c.list v.distinct h
              ∙ if_pos (str_dec k e.key) (sym (find_key-key k c.list h)) _ _));
      agrees = λ j. rw (find_key-moved j) (v.agrees j);
      deadlines = λ j absent. v.deadlines j (rw (find_key-moved j) at absent);
      once = v.once;
      bytes = rw move_to_back-found (
          omega (
            arith,
            v.bytes,
            total-append size (remove_ref e.ref c.list) e,
            total-remove size c.next_ref k c.list {e = e} v.distinct h,
          ));
    }

    moved-view :
        view (record c { list = move_to_back e.ref c.list })
        ≡ without k (view c)
          ++ record { key = e.key; value = e.value; deadline = lookup e.key c.expires } ∷ []
    moved-view =
        rw (move_to_back-found, entries-append)
          (rw (entries-remove size c.expires c.next_ref k c.list v.distinct h))

  pub get-IsValid :
      (k : Str) (now : ℕ) (c : Lru V) → IsValid size c → IsValid size (get size k now c).0
  unfolding get
  get-IsValid k now c v = elim (Option-cases (find_key k c.list)) [
    | inl missing ↦ rw (find_elem-find_key size k c v ∙ missing, get) v
    | inr (e, found) ↦ elim (Bool-cases (is_past now (lookup k c.expires))) [
      | inl dead ↦
          rw (find_elem-find_key size k c v ∙ found, get)
            (rw dead (remove_element-IsValid size k c v found))
      | inr fine ↦
          rw (find_elem-find_key size k c v ∙ found, get) (rw fine (moved-IsValid k c v found))
    ]
  ]

  -- `Get` answers with the value of a live entry and with nothing otherwise; it makes a live entry
  -- the most recently used, takes a dead one away, and changes no other entry.
  pub get-read :
      (k : Str) (now : ℕ) (c : Lru V)
      → IsValid size c
      → (view (get size k now c).0 ≡ read k now (view c))
        × ((get size k now c).1 ≡ answer k now (view c))
  unfolding get read answer
  get-read k now c v = elim (Option-cases (find_key k c.list)) [
    | inl missing ↦
        ground (arith, find_elem-find_key size k c v, find-entries size c.expires k c.list)
    | inr (e, found) ↦ ground (
      arith,
      find_elem-find_key size k c v,
      find-entries size c.expires k c.list,
      find_key-key k c.list {e = e} found,
      moved-view k c {e = e} v found,
      remove_element-view size k c {e = e} v found,
    )
  ]

  -- `GetWithExpiration` leaves the state that `Get` leaves.
  get_with_expiration-get :
      (k : Str) (now : ℕ) (c : Lru V) → (get_with_expiration size k now c).0 ≡ (get size k now c).0
  unfolding get get_with_expiration
  get_with_expiration-get k now c = ground arith

  pub get_with_expiration-IsValid :
      (k : Str) (now : ℕ) (c : Lru V)
      → IsValid size c
      → IsValid size (get_with_expiration size k now c).0
  get_with_expiration-IsValid k now c v =
      rw (get_with_expiration-get k now c) (get-IsValid k now c v)

  -- The answer of `GetWithExpiration`: that of `Get`, with the time that is left.
  abbrev pub lifetime : ℕ → Option ℕ → ℕ
  lifetime now none = 0
  lifetime now (some exp) = min (exp - now) (2 ^ 63 - 1)

  abbrev pub timed : Str → ℕ → List (Entry V) → Option (V × ℕ)
  timed k now l = elim (find k l) [
    | none ↦ none
    | some e ↦ if is_past now e.deadline then none else some (e.value, lifetime now e.deadline)
  ]

  -- `GetWithExpiration` finds what `Get` finds and changes the same; beside the value it gives the
  -- time left to the deadline, at most 2^63 - 1, and 0 for an entry without one.
  pub get_with_expiration-read :
      (k : Str) (now : ℕ) (c : Lru V)
      → IsValid size c
      → (view (get_with_expiration size k now c).0 ≡ read k now (view c))
        × ((get_with_expiration size k now c).1 ≡ timed k now (view c))
  unfolding get_with_expiration
  get_with_expiration-read k now c v =
      (rw (get_with_expiration-get k now c) (get-read k now c v).0, answered)
    where
      answered : (get_with_expiration size k now c).1 ≡ timed k now (view c)
      answered = elim (Option-cases (find_key k c.list)) [
        | inl missing ↦
            ground (arith, find_elem-find_key size k c v, find-entries size c.expires k c.list)
        | inr (e, found) ↦ ground (
          arith,
          find_elem-find_key size k c v,
          find-entries size c.expires k c.list,
          find_key-key k c.list {e = e} found,
        )
      ]

  pub delete_key-IsValid :
      (k : Str) (c : Lru V) → IsValid size c → IsValid size (delete_key size k c).0
  unfolding delete_key
  delete_key-IsValid k c v = elim (Option-cases (find_key k c.list)) [
    | inl missing ↦ rw (find_elem-find_key size k c v ∙ missing, delete_key) v
    | inr (e, found) ↦
        rw (find_elem-find_key size k c v ∙ found, delete_key)
          (remove_element-IsValid size k c v found)
  ]

  abbrev pub is_some : Option (Entry V) → Bool
  is_some none = false
  is_some (some e) = true

  -- `Delete` takes the entry of the key away, dead or live, changes no other entry, and reports
  -- whether there was one.
  pub delete_key-without :
      (k : Str) (c : Lru V)
      → IsValid size c
      → (view (delete_key size k c).0 ≡ without k (view c))
        × ((delete_key size k c).1 ≡ is_some (find k (view c)))
  unfolding delete_key
  delete_key-without k c v = elim (Option-cases (find_key k c.list)) [
    | inl missing ↦ ground (
      arith,
      find_elem-find_key size k c v,
      find-entries size c.expires k c.list,
      without_absent size c.expires k c.list missing,
    )
    | inr (e, found) ↦ ground (
      arith,
      find_elem-find_key size k c v,
      find-entries size c.expires k c.list,
      remove_element-view size k c {e = e} v found,
    )
  ]

  pub get-max : (k : Str) (now : ℕ) (c : Lru V) → (get size k now c).0.max_bytes ≡ c.max_bytes
  unfolding get remove_element
  get-max k now c = ground arith

  pub delete_key-max : (k : Str) (c : Lru V) → (delete_key size k c).0.max_bytes ≡ c.max_bytes
  unfolding delete_key remove_element
  delete_key-max k c = ground arith
