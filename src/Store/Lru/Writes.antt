-- ===== src/Store/Lru/Writes.antt =====
-- The writes of store/lru.go against the sequence of entries.
use locache.Base.{
  ℕ, suc, ◌+◌, ◌^◌, ◌<◌, ◌≡◌, refl, sym, ◌∙◌, ap₂, ite, if_pos, Option, none, some, List, [], ◌∷◌,
  ◌++◌, arith, Option-cases, inl, inr, Bool-cases, if◌then◌else◌, length,
}
use locache.Base.Words.{gt64, add64, sub64}
use locache.Base.Str.{Str, str_dec}
use locache.Base.Map.{
  Map, IsMap, lookup, insert, lookup-insert, lookup-delete, insert-IsMap, delete-IsMap,
}
use locache.Store.Lru.Elems.{Elem, find_ref, remove_ref, set_value, move_to_back, find_key}
use locache.Store.Lru.Elems.Laws.{
  find_key-key, find_ref-find_key, remove_ref-Distinct, find_key-remove, find_key-append,
  append-Distinct, find_ref-remove_self, Distinct-mono, find_ref_fresh,
}
use locache.Store.Lru.{Lru, find_elem, elem_size, with_deadline, store_value, set_with_expiration}
use locache.Store.Lru.Spec.{Entry, differs, without, weigh, write}
use locache.Store.Lru.Spec.Laws.{weigh-retain-le, weigh-append}
use locache.Store.Lru.Invariant.{
  IsValid, view, entries, total, find_elem-find_key, entries-remove, entries-append, without_absent,
  total-remove, total-append,
}
use locache.Store.Lru.Reads.{ref_lt, delete_key-IsValid, delete_key-max}
use locache.Store.Lru.Evict.{evict_locked-IsValid, evict_locked-trim, evict_locked-max}

abbrev pub deadline_of : ℕ → ℕ → Option ℕ
deadline_of expiration now = if gt64 expiration 0 then some (now + expiration) else none

module _ {V : Type 0} (size : V → ℕ) where
  -- `set_value` and then taking the element away is taking it away.
  remove_ref-set_value :
      (r : ℕ) (v : V) (l : List (Elem V)) → remove_ref r (set_value r v l) ≡ remove_ref r l
  unfolding remove_ref set_value
  remove_ref-set_value r v [] = refl
  remove_ref-set_value r v (x ∷ l) = ground (arith, remove_ref-set_value r v l)

  find_ref-set_value :
      (r : ℕ) (v : V) (l : List (Elem V)) {e : Elem V}
      → find_ref r l ≡ some e
      → find_ref r (set_value r v l) ≡ some (record e { value = v })
  unfolding find_ref set_value
  find_ref-set_value r v [] h = cc
  find_ref-set_value r v (x ∷ l) {e} h = ground (arith, find_ref-set_value r v l {e = e})

  entries_change :
      (m m' : Map ℕ) (k : Str) (d : Option ℕ) (l : List (Elem V))
      → ((j : Str) → lookup j m' ≡ ite (str_dec k j) d (lookup j m))
      → find_key k l ≡ none
      → entries m' l ≡ entries m l
  unfolding entries find_key
  entries_change m m' k d [] h a = refl
  entries_change m m' k d (x ∷ l) h a = ground (arith, entries_change m m' k d l h, h x.key)

  module _ (k : Str) (value : V) (expiration now : ℕ) (c : Lru V) (v : IsValid size c) where
    abbrev marked : Lru V
    marked = with_deadline size k expiration now c

    abbrev written : Lru V
    written = store_value size k value marked

    abbrev fresh_entry : Entry V
    fresh_entry = record { key = k; value = value; deadline = deadline_of expiration now }

    lookup-marked :
        (j : Str)
        → lookup j marked.expires
          ≡ ite (str_dec k j) (deadline_of expiration now) (lookup j c.expires)
    unfolding with_deadline
    lookup-marked j =
        ground (arith, lookup-insert j k (now + expiration) c.expires, lookup-delete j k c.expires)

    marked-IsMap : IsMap marked.expires
    unfolding with_deadline
    marked-IsMap = elim (Bool-cases (gt64 expiration 0)) [
      | inl h ↦ rw h (insert-IsMap k (now + expiration) c.expires v.once)
      | inr h ↦ rw h (delete-IsMap k c.expires v.once)
    ]

    find_elem-marked : find_elem size k marked ≡ find_key k c.list
    unfolding with_deadline find_elem
    find_elem-marked = ground (arith, find_elem-find_key size k c v)

    -- The deadline that a write gives to its key.
    lookup-marked_self : lookup k marked.expires ≡ deadline_of expiration now
    lookup-marked_self = lookup-marked k ∙ if_pos (str_dec k k) refl _ _

    -- A write shows in no entry of another key.
    entries-marked :
        (l : List (Elem V)) → find_key k l ≡ none → entries marked.expires l ≡ entries c.expires l
    entries-marked l =
        entries_change c.expires marked.expires k (deadline_of expiration now) l lookup-marked

    put_back : List (Entry V) → Option ℕ → List (Entry V)
    put_back l d = l ++ record { key = k; value = value; deadline = d } ∷ []

    module _ {e : Elem V} (h : find_key k c.list ≡ some e) where
      abbrev rest : List (Elem V)
      rest = remove_ref e.ref c.list

      moved_list :
          move_to_back e.ref (set_value e.ref value c.list)
          ≡ rest ++ record e { value = value } ∷ []
      unfolding move_to_back
      moved_list =
          rw
            (
              find_ref-set_value e.ref value c.list
                  (find_ref-find_key c.next_ref k c.list v.distinct h),
              move_to_back,
            )
            (rw (remove_ref-set_value e.ref value c.list))

      absent : (j : Str) → find_key j rest ≡ ite (str_dec k j) none (find_key j c.list)
      absent j = find_key-remove c.next_ref j k c.list v.distinct h

      -- The state after a write to a stored key.
      abbrev replaced : Lru V
      replaced = record c {
        list = rest ++ record e { value = value } ∷ [];
        expires = marked.expires;
        used_bytes = add64 c.used_bytes (sub64 (size value) (size e.value));
      }

      written-replaced : written ≡ replaced
      unfolding store_value with_deadline
      written-replaced = elim (Bool-cases (gt64 expiration 0)) [
        | inl p ↦ rw (find_elem-marked ∙ h, store_value) (rw (p, moved_list))
        | inr p ↦ rw (find_elem-marked ∙ h, store_value) (rw (p, moved_list))
      ]

      replaced-IsValid : IsValid size replaced
      unfolding total elem_size add64 sub64
      replaced-IsValid = record {
        distinct =
            append-Distinct c.next_ref rest (record e { value = value })
              (remove_ref-Distinct c.next_ref e.ref c.list v.distinct)
              (ref_lt size c.next_ref k c.list v.distinct h)
              (find_ref-remove_self c.next_ref e.ref c.list v.distinct)
              (absent e.key ∙ if_pos (str_dec k e.key) (sym (find_key-key k c.list h)) _ _);
        agrees = λ j. ground (
          arith,
          v.agrees j,
          absent j,
          find_key-append j rest (record e { value = value }),
          find_key-key k c.list {e = e} h,
        );
        deadlines = λ j missing. ground (
          arith,
          v.deadlines j,
          absent j,
          lookup-marked j,
          find_key-append j rest (record e { value = value }),
          find_key-key k c.list {e = e} h,
        );
        once = marked-IsMap;
        bytes = omega (
          arith,
          v.bytes,
          total-append size rest (record e { value = value }),
          total-remove size c.next_ref k c.list {e = e} v.distinct h,
        );
      }

      replaced-view : view replaced ≡ without k (view c) ++ fresh_entry ∷ []
      unfolding put_back
      replaced-view =
          entries-append size marked.expires rest (record e { value = value })
          ∙ rw (find_key-key k c.list h) (
              ap₂ put_back
                (entries-marked rest (absent k ∙ if_pos (str_dec k k) refl _ _)
                  ∙ entries-remove size c.expires c.next_ref k c.list v.distinct h)
                lookup-marked_self)

    module _ (h : find_key k c.list ≡ none) where
      abbrev new_elem : Elem V
      new_elem = record { ref = c.next_ref; key = k; value = value }

      -- The state after a write to a new key.
      abbrev added : Lru V
      added = record c {
        list = c.list ++ new_elem ∷ [];
        items = insert k c.next_ref c.items;
        expires = marked.expires;
        used_bytes = add64 c.used_bytes (length k + size value);
        next_ref = suc c.next_ref;
      }

      written-added : written ≡ added
      unfolding store_value with_deadline
      written-added = elim (Bool-cases (gt64 expiration 0)) [
        | inl p ↦ rw (find_elem-marked ∙ h, store_value) (rw p)
        | inr p ↦ rw (find_elem-marked ∙ h, store_value) (rw p)
      ]

      added-IsValid : IsValid size added
      unfolding total elem_size add64
      added-IsValid = record {
        distinct =
            append-Distinct (suc c.next_ref) c.list new_elem
              (Distinct-mono c.next_ref (suc c.next_ref) c.list (omega arith) v.distinct)
              (omega arith) (find_ref_fresh c.next_ref c.next_ref c.list (omega arith) v.distinct)
              h;
        agrees = λ j. ground (
          arith,
          v.agrees j,
          lookup-insert j k c.next_ref c.items,
          find_key-append j c.list new_elem,
        );
        deadlines = λ j missing.
            ground (arith, v.deadlines j, lookup-marked j, find_key-append j c.list new_elem);
        once = marked-IsMap;
        bytes = omega (arith, v.bytes, total-append size c.list new_elem);
      }

      added-view : view added ≡ without k (view c) ++ fresh_entry ∷ []
      unfolding put_back
      added-view =
          entries-append size marked.expires c.list new_elem
          ∙ ap₂ put_back (entries-marked c.list h ∙ sym (without_absent size c.expires k c.list h))
              lookup-marked_self

    written-IsValid : IsValid size written
    written-IsValid = elim (Option-cases (find_key k c.list)) [
      | inl missing ↦ rw (written-added missing) (added-IsValid missing)
      | inr (e, found) ↦ rw (written-replaced found) (replaced-IsValid found)
    ]

    written-view : view written ≡ without k (view c) ++ fresh_entry ∷ []
    written-view = elim (Option-cases (find_key k c.list)) [
      | inl missing ↦ rw (written-added missing) (added-view missing)
      | inr (e, found) ↦ rw (written-replaced found) (replaced-view found)
    ]

    written-max : written.max_bytes ≡ c.max_bytes
    written-max = elim (Option-cases (find_key k c.list)) [
      | inl missing ↦ rw (written-added missing)
      | inr (e, found) ↦ rw (written-replaced found)
    ]

  pub set_with_expiration-IsValid :
      (k : Str) (value : Option V) (expiration now later : ℕ) (c : Lru V)
      → IsValid size c
      → IsValid size (set_with_expiration size k value expiration now later c)
  unfolding set_with_expiration
  set_with_expiration-IsValid k none expiration now later c v = delete_key-IsValid size k c v
  set_with_expiration-IsValid k (some x) expiration now later c v =
      evict_locked-IsValid size later _ (written-IsValid k x expiration now c v)

  -- `SetWithExpiration` of a value puts the entry with its deadline at the end in place of any
  -- entry of the key, then drops the dead entries, then the least recently used ones until the
  -- limit is met, and nothing more; if the byte counts fit an int64.
  pub set_with_expiration-write :
      (k : Str) (value : V) (expiration now later : ℕ) (c : Lru V)
      → IsValid size c
      → c.max_bytes < 2 ^ 64
      → weigh size (view c) + length k + size value < 2 ^ 63
      → view (set_with_expiration size k (some value) expiration now later c)
        ≡ write size c.max_bytes
            (record { key = k; value = value; deadline = deadline_of expiration now })
            later
            (view c)
  unfolding set_with_expiration write weigh
  set_with_expiration-write k value expiration now later c v word small =
      let stored = written-view k value expiration now c v in
      evict_locked-trim size later _ (written-IsValid k value expiration now c v)
        (rw (written-max k value expiration now c v) word)
        (rw stored (
          rw (weigh-append size (without k (view c)))
            (omega (arith, weigh-retain-le size (differs k) (view c)))))
      ∙ rw (written-max k value expiration now c v, stored)

  pub set_with_expiration-max :
      (k : Str) (value : Option V) (expiration now later : ℕ) (c : Lru V)
      → IsValid size c
      → (set_with_expiration size k value expiration now later c).max_bytes ≡ c.max_bytes
  unfolding set_with_expiration
  set_with_expiration-max k none expiration now later c v = delete_key-max size k c
  set_with_expiration-max k (some x) expiration now later c v =
      evict_locked-max size later _ ∙ written-max k x expiration now c v
