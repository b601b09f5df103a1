-- ===== src/Store/Lru/Invariant.antt =====
-- The invariant of the state of store/lru.go, and the view of it as a sequence of entries.
use locache.Base.{
  ℕ, ◌+◌, ◌%◌, ◌^◌, ◌≡◌, refl, ◌∙◌, Option, none, some, List, [], ◌∷◌, ◌++◌, arith, retain,
  Option-cases, inl, inr, if_pos,
}
use locache.Base.Words.{sub64_part}
use locache.Base.Str.{Str, str_dec}
use locache.Base.Map.{Map, IsMap, lookup, delete, lookup-delete, delete-IsMap}
use locache.Store.Lru.Elems.{Elem, remove_ref, find_key, Distinct}
use locache.Store.Lru.Elems.Laws.{
  find_key-key, find_ref-find_key, remove_ref-Distinct, find_key-remove,
}
use locache.Store.Lru.{Lru, find_elem, elem_size, remove_element}
use locache.Store.Lru.Spec.{Entry, find, without, weigh}

module _ {V : Type 0} where
  abbrev pub ref_of : Option (Elem V) → Option ℕ
  ref_of none = none
  ref_of (some e) = some e.ref

  -- The entries that a list of elements stands for, given the map of deadlines.
  unfoldable pub entries : Map ℕ → List (Elem V) → List (Entry V)
  entries m [] = []
  entries m (e ∷ l) =
      record { key = e.key; value = e.value; deadline = lookup e.key m } ∷ entries m l

  abbrev pub view : Lru V → List (Entry V)
  view c = entries c.expires c.list

module _ {V : Type 0} (size : V → ℕ) where
  unfoldable pub total : List (Elem V) → ℕ
  unfolding elem_size
  total [] = 0
  total (e ∷ l) = elem_size size e + total l

  -- `items` names exactly the listed elements, no key or identity is listed twice, only stored keys
  -- have a deadline, and the byte count is that of the entries, modulo 2^64.
  pub record IsValid (c : Lru V) : Type 0 where
    pub distinct : Distinct c.next_ref c.list
    pub agrees : (k : Str) → lookup k c.items ≡ ref_of (find_key k c.list)
    pub deadlines : (k : Str) → find_key k c.list ≡ none → lookup k c.expires ≡ none
    pub once : IsMap c.expires
    pub bytes : c.used_bytes ≡ total c.list % 2 ^ 64

  pub find_elem-find_key :
      (k : Str) (c : Lru V) → IsValid c → find_elem size k c ≡ find_key k c.list
  unfolding find_elem
  find_elem-find_key k c v = elim (Option-cases (find_key k c.list)) [
    | inl missing ↦ ground (arith, v.agrees k)
    | inr (e, found) ↦
        ground (arith, v.agrees k, find_ref-find_key c.next_ref k c.list {e = e} v.distinct)
  ]

  pub without_absent :
      (m : Map ℕ) (k : Str) (l : List (Elem V))
      → find_key k l ≡ none
      → without k (entries m l) ≡ entries m l
  unfolding entries find_key retain
  without_absent m k [] h = refl
  without_absent m k (x ∷ l) h = ground (arith, without_absent m k l)

  pub total-remove :
      (n : ℕ) (k : Str) (l : List (Elem V)) {e : Elem V}
      → Distinct n l
      → find_key k l ≡ some e
      → elem_size size e + total (remove_ref e.ref l) ≡ total l
  unfolding total remove_ref find_key
  total-remove n k [] d h = cc
  total-remove n k (x ∷ l) {e} d h =
      ground (arith, total-remove n k l {e = e} d.3, find_ref-find_key n k l {e = e} d.3)

  -- The view of a list without an element.
  pub entries-remove :
      (m : Map ℕ) (n : ℕ) (k : Str) (l : List (Elem V)) {e : Elem V}
      → Distinct n l
      → find_key k l ≡ some e
      → entries m (remove_ref e.ref l) ≡ without k (entries m l)
  unfolding entries remove_ref find_key retain
  entries-remove m n k [] d h = cc
  entries-remove m n k (x ∷ l) {e} d h = elim (str_dec x.key k) [
    | yes p ↦ ground (arith, without_absent m k l)
    | no p ↦ ground (arith, entries-remove m n k l {e = e} d.3, find_ref-find_key n k l {e = e} d.3)
  ]

  -- A deadline that is dropped shows in no entry of another key.
  pub entries-delete :
      (m : Map ℕ) (k : Str) (l : List (Elem V))
      → find_key k l ≡ none
      → entries (delete k m) l ≡ entries m l
  unfolding entries find_key
  entries-delete m k [] h = refl
  entries-delete m k (x ∷ l) h = ground (arith, entries-delete m k l, lookup-delete x.key k m)

  pub find-entries :
      (m : Map ℕ) (k : Str) (l : List (Elem V))
      → find k (entries m l) ≡ elim (find_key k l) [
        | none ↦ none
        | some e ↦ some (record { key = e.key; value = e.value; deadline = lookup e.key m })
      ]
  unfolding entries find_key find
  find-entries m k [] = refl
  find-entries m k (x ∷ l) = ground (arith, find-entries m k l)

  pub entries-append :
      (m : Map ℕ) (l : List (Elem V)) (e : Elem V)
      → entries m (l ++ e ∷ [])
        ≡ entries m l ++ record { key = e.key; value = e.value; deadline = lookup e.key m } ∷ []
  unfolding entries
  entries-append m [] e = refl
  entries-append m (x ∷ l) e = rw (entries-append m l e)

  pub weigh-entries : (m : Map ℕ) (l : List (Elem V)) → weigh size (entries m l) ≡ total l
  unfolding entries total weigh
  weigh-entries m [] = refl
  weigh-entries m (x ∷ l) = ground (arith, weigh-entries m l)

  pub total-append :
      (l : List (Elem V)) (e : Elem V) → total (l ++ e ∷ []) ≡ total l + elem_size size e
  unfolding total
  total-append [] e = omega arith
  total-append (x ∷ l) e = omega (arith, total-append l e)

  -- Taking an element away keeps the invariant.
  pub remove_element-IsValid :
      (k : Str) (c : Lru V) {e : Elem V}
      → IsValid c
      → find_key k c.list ≡ some e
      → IsValid (remove_element size e c)
  unfolding remove_element
  remove_element-IsValid k c {e} v h = record {
    distinct = remove_ref-Distinct c.next_ref e.ref c.list v.distinct;
    agrees = λ j. ground (
      arith,
      v.agrees j,
      lookup-delete j e.key c.items,
      find_key-remove c.next_ref j k c.list {e = e} v.distinct h,
      find_key-key k c.list {e = e} h,
    );
    deadlines = λ j absent. ground (
      arith,
      v.deadlines j,
      lookup-delete j e.key c.expires,
      find_key-remove c.next_ref j k c.list {e = e} v.distinct h,
      find_key-key k c.list {e = e} h,
    );
    once = delete-IsMap e.key c.expires v.once;
    bytes =
        sub64_part c.used_bytes (total c.list) (elem_size size e) (total (remove_ref e.ref c.list))
          v.bytes (total-remove c.next_ref k c.list {e = e} v.distinct h);
  }

  -- It takes away the entry of its key, and no other.
  pub remove_element-view :
      (k : Str) (c : Lru V) {e : Elem V}
      → IsValid c
      → find_key k c.list ≡ some e
      → view (remove_element size e c) ≡ without k (view c)
  unfolding remove_element
  remove_element-view k c {e} v h = rw (find_key-key k c.list h) (
      entries-delete c.expires k (remove_ref e.ref c.list)
        (rw (find_key-remove c.next_ref k k c.list v.distinct h) (if_pos (str_dec k k) refl _ _))
      ∙ entries-remove c.expires c.next_ref k c.list v.distinct h)
