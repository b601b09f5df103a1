-- ===== src/Store/Lru/Evict/Sweep.antt =====
-- The first loop of `evictLocked` of store/lru.go, which drops what is past its deadline.
use locache.Base.{
  ℕ, ◌≡◌, refl, sym, ◌∙◌, ap, ite, none, some, List, [], ◌∷◌, arith, Option-cases, inl, inr,
  Bool-cases, Bool, false, ◌||◌, not, retain, leb, if◌then◌else◌,
}
use locache.Base.Str.{Str, str_dec}
use locache.Base.Map.{Map, IsMap, lookup}
use locache.Store.Lru.Elems.{Elem, find_key}
use locache.Store.Lru.{Lru, is_past, find_elem, remove_element, sweep}
use locache.Store.Lru.Spec.{Entry, without, live}
use locache.Store.Lru.Invariant.{
  IsValid, view, entries, find_elem-find_key, remove_element-IsValid, remove_element-view,
  without_absent,
}

module _ {V : Type 0} (size : V → ℕ) where
  -- One round of the first loop.
  unfoldable pub sweep_one : ℕ → Str → ℕ → Lru V → Lru V
  sweep_one now k exp c =
      if leb exp now
      then elim (find_elem size k c) [ none ↦ c | some e ↦ remove_element size e c ]
      else c

  pub sweep_one-IsValid :
      (now : ℕ) (k : Str) (exp : ℕ) (c : Lru V)
      → IsValid size c
      → IsValid size (sweep_one now k exp c)
  unfolding sweep_one
  sweep_one-IsValid now k exp c v = elim (Bool-cases (leb exp now)) [
    | inr alive ↦ rw alive v
    | inl dead ↦ elim (Option-cases (find_key k c.list)) [
      | inl missing ↦ rw dead (rw (find_elem-find_key size k c v ∙ missing) v)
      | inr (e, found) ↦
          rw dead
            (rw (find_elem-find_key size k c v ∙ found) (remove_element-IsValid size k c v found))
    ]
  ]

  pub sweep_one-max :
      (now : ℕ) (k : Str) (exp : ℕ) (c : Lru V) → (sweep_one now k exp c).max_bytes ≡ c.max_bytes
  unfolding sweep_one remove_element
  sweep_one-max now k exp c = ground arith

  -- The keys that a list of deadlines condemns.
  condemned : ℕ → Map ℕ → Str → Bool
  condemned now [] k = false
  condemned now ((j, exp) ∷ m) k = ite (str_dec j k) (leb exp now) false || condemned now m k

  sweep_one-view :
      (now : ℕ) (k : Str) (exp : ℕ) (c : Lru V)
      → IsValid size c
      → view (sweep_one now k exp c) ≡ (if leb exp now then without k (view c) else view c)
  unfolding sweep_one
  sweep_one-view now k exp c v = elim (Bool-cases (leb exp now)) [
    | inr alive ↦ rw alive
    | inl dead ↦ elim (Option-cases (find_key k c.list)) [
      | inl missing ↦ rw dead (
          rw (find_elem-find_key size k c v ∙ missing)
            (sym (without_absent size c.expires k c.list missing)))
      | inr (e, found) ↦
          rw dead
            (rw (find_elem-find_key size k c v ∙ found) (remove_element-view size k c v found))
    ]
  ]

  spared : ℕ → Map ℕ → Entry V → Bool
  unfolding condemned
  spared now m e = not (condemned now m e.key)

  retain-spared_nil : (now : ℕ) (l : List (Entry V)) → l ≡ retain (spared now []) l
  unfolding retain spared
  retain-spared_nil now [] = refl
  retain-spared_nil now (e ∷ l) = ground (arith, retain-spared_nil now l)

  retain-spared_cons :
      (now : ℕ) (k : Str) (exp : ℕ) (m : Map ℕ) (l : List (Entry V))
      → retain (spared now m) (if leb exp now then without k l else l)
        ≡ retain (spared now ((k, exp) ∷ m)) l
  unfolding retain spared
  retain-spared_cons now k exp m [] = ground arith
  retain-spared_cons now k exp m (e ∷ l) = elim (Bool-cases (leb exp now)) [
    | inl dead ↦ ground (arith, rw dead at (retain-spared_cons now k exp m l))
    | inr alive ↦ ground (arith, rw alive at (retain-spared_cons now k exp m l))
  ]

  pub sweep-IsValid :
      (now : ℕ) (m : Map ℕ) (c : Lru V) → IsValid size c → IsValid size (sweep size now m c)
  unfolding sweep sweep_one
  sweep-IsValid now [] c v = v
  sweep-IsValid now ((k, exp) ∷ m) c v =
      sweep-IsValid now m (sweep_one now k exp c) (sweep_one-IsValid now k exp c v)

  sweep-view :
      (now : ℕ) (m : Map ℕ) (c : Lru V)
      → IsValid size c
      → view (sweep size now m c) ≡ retain (spared now m) (view c)
  unfolding sweep sweep_one
  sweep-view now [] c v = retain-spared_nil now (view c)
  sweep-view now ((k, exp) ∷ m) c v =
      sweep-view now m (sweep_one now k exp c) (sweep_one-IsValid now k exp c v)
      ∙ ap (retain (spared now m)) (sweep_one-view now k exp c v)
      ∙ retain-spared_cons now k exp m (view c)

  condemned-lookup :
      (now : ℕ) (m : Map ℕ) (k : Str) → IsMap m → condemned now m k ≡ is_past now (lookup k m)
  unfolding condemned lookup
  condemned-lookup now [] k h = refl
  condemned-lookup now ((j, exp) ∷ m) k h = ground (arith, condemned-lookup now m k h.1)

  spared-live :
      (now : ℕ) (m : Map ℕ) (l : List (Elem V))
      → IsMap m
      → retain (spared now m) (entries m l) ≡ live now (entries m l)
  unfolding retain spared entries
  spared-live now m [] h = refl
  spared-live now m (e ∷ l) h =
      ground (arith, spared-live now m l h, condemned-lookup now m e.key h)

  -- The first loop drops the entries whose deadline has come, and no other.
  pub sweep-live :
      (now : ℕ) (c : Lru V) → IsValid size c → view (sweep size now c.expires c) ≡ live now (view c)
  sweep-live now c v = sweep-view now c.expires c v ∙ spared-live now c.expires c.list v.once
