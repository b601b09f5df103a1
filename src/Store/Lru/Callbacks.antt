-- ===== src/Store/Lru/Callbacks.antt =====
-- The calls of `onEvicted` in store/lru.go, with the entries that stay.
use mathlib.Core.List.{Perm, perm_append_singleton}
use mathlib.Core.List.Perm
use locache.Base.{
  ℕ, zero, suc, ◌≡◌, refl, ◌∙◌, some, List, [], ◌∷◌, ◌++◌, append_assoc, arith, true, leb, if_pos,
  if_neg, length, Bool-cases, Option-cases, inl, inr, ℕ_discrete,
}
use locache.Base.Str.{Str}
use locache.Base.Map.{Map, lookup}
use locache.Store.Lru.Elems.{Elem, find_ref, remove_ref, move_to_back, find_key}
use locache.Store.Lru.Elems.Laws.{find_ref-find_key}
use locache.Store.Lru.{
  Lru, is_past, remove_element, get, delete_key, sweep, over_budget, evict_front, evict_locked,
}
use locache.Store.Lru.Evict.{
  find_key-head, evict_front_empty, evict_front_stop, evict_front_next, remove_front-list,
}
use locache.Store.Lru.Evict.Sweep.{sweep-IsValid, sweep_one, sweep_one-IsValid}
use locache.Store.Lru.Reads.{move_to_back-found}
use locache.Store.Lru.Invariant.{IsValid, find_elem-find_key, remove_element-IsValid}

module _ {V : Type 0} where
  -- What the elements hold.
  pub pairs : List (Elem V) → List (Str × V)
  pairs [] = []
  pairs (e ∷ l) = (e.key, e.value) ∷ pairs l

  pairs-remove_ref :
      (r : ℕ) (l : List (Elem V)) {e : Elem V}
      → find_ref r l ≡ some e
      → Perm ((e.key, e.value) ∷ pairs (remove_ref r l)) (pairs l)
  unfolding find_ref remove_ref pairs
  pairs-remove_ref r [] h = cc
  pairs-remove_ref r (x ∷ l) {e} h = elim (ℕ_discrete x.ref r) [
    | yes p ↦ rw (if_pos _ p) (Perm.cons' (ground arith) (Perm.refl (pairs l)))
    | no p ↦
        rw (if_neg _ p)
          (Perm.trans (Perm.swap _ _ _) (Perm.cons _ (pairs-remove_ref r l {e = e} (ground arith))))
  ]

  -- What a store was asked to report so far, with what it still holds.
  abbrev pub account : Lru V → List (Str × V)
  account c = c.log ++ pairs c.list

module _ {V : Type 0} (size : V → ℕ) where
  -- One removal moves one entry from the store to the reports.
  removed-account :
      (k : Str) (c : Lru V) {e : Elem V}
      → IsValid size c
      → c.on_evicted ≡ true
      → find_key k c.list ≡ some e
      → Perm (account (remove_element size e c)) (account c)
  unfolding remove_element
  removed-account k c {e} v on h = rw on (
      rw (append_assoc c.log ((e.key, e.value) ∷ []) (pairs (remove_ref e.ref c.list))) (
        Perm.append_left c.log
          (pairs-remove_ref e.ref c.list (find_ref-find_key c.next_ref k c.list v.distinct h))))

  removed-on : (c : Lru V) (e : Elem V) → (remove_element size e c).on_evicted ≡ c.on_evicted
  unfolding remove_element
  removed-on c e = refl

  pairs-append :
      (l : List (Elem V)) (e : Elem V) → pairs (l ++ e ∷ []) ≡ pairs l ++ (e.key, e.value) ∷ []
  unfolding pairs
  pairs-append [] e = refl
  pairs-append (x ∷ l) e = rw (pairs-append l e)

  moved-pairs :
      (k : Str) (c : Lru V) {e : Elem V}
      → IsValid size c
      → find_key k c.list ≡ some e
      → Perm (pairs (move_to_back e.ref c.list)) (pairs c.list)
  moved-pairs k c {e} v h =
      rw (move_to_back-found size k c v h, pairs-append)
        (Perm.trans (perm_append_singleton (e.key, e.value) (pairs (remove_ref e.ref c.list)))
          (pairs-remove_ref e.ref c.list (find_ref-find_key c.next_ref k c.list v.distinct h)))

  -- With a callback installed, `Get` reports the entry that it drops, once, and nothing else: what
  -- was reported together with what is stored stays the same collection.
  pub account-get :
      (k : Str) (now : ℕ) (c : Lru V)
      → IsValid size c
      → c.on_evicted ≡ true
      → Perm (account (get size k now c).0) (account c)
  unfolding get
  account-get k now c v on = elim (Option-cases (find_key k c.list)) [
    | inl missing ↦ rw (find_elem-find_key size k c v ∙ missing, get) (Perm.refl (account c))
    | inr (e, found) ↦ elim (Bool-cases (is_past now (lookup k c.expires))) [
      | inl dead ↦
          rw (find_elem-find_key size k c v ∙ found, get) (rw dead (removed-account k c v on found))
      | inr fine ↦
          rw (find_elem-find_key size k c v ∙ found, get)
            (rw fine (Perm.append_left c.log (moved-pairs k c v found)))
    ]
  ]

  -- With a callback installed, `Delete` reports the entry that it takes away, once.
  pub account-delete_key :
      (k : Str) (c : Lru V)
      → IsValid size c
      → c.on_evicted ≡ true
      → Perm (account (delete_key size k c).0) (account c)
  unfolding delete_key
  account-delete_key k c v on = elim (Option-cases (find_key k c.list)) [
    | inl missing ↦ rw (find_elem-find_key size k c v ∙ missing, delete_key) (Perm.refl (account c))
    | inr (e, found) ↦
        rw (find_elem-find_key size k c v ∙ found, delete_key) (removed-account k c v on found)
  ]

  sweep_one-account :
      (now : ℕ) (k : Str) (exp : ℕ) (c : Lru V)
      → IsValid size c
      → c.on_evicted ≡ true
      → Perm (account (sweep_one size now k exp c)) (account c)
  unfolding sweep_one
  sweep_one-account now k exp c v on = elim (Bool-cases (leb exp now)) [
    | inr alive ↦ rw alive (Perm.refl (account c))
    | inl dead ↦ elim (Option-cases (find_key k c.list)) [
      | inl missing ↦ rw dead (rw (find_elem-find_key size k c v ∙ missing) (Perm.refl (account c)))
      | inr (e, found) ↦
          rw dead (rw (find_elem-find_key size k c v ∙ found) (removed-account k c v on found))
    ]
  ]

  sweep_one-on :
      (now : ℕ) (k : Str) (exp : ℕ) (c : Lru V)
      → (sweep_one size now k exp c).on_evicted ≡ c.on_evicted
  unfolding sweep_one remove_element
  sweep_one-on now k exp c = ground arith

  sweep-account :
      (now : ℕ) (m : Map ℕ) (c : Lru V)
      → IsValid size c
      → c.on_evicted ≡ true
      → Perm (account (sweep size now m c)) (account c) × ((sweep size now m c).on_evicted ≡ true)
  unfolding sweep sweep_one
  sweep-account now [] c v on = (Perm.refl (account c), on)
  sweep-account now ((k, exp) ∷ m) c v on =
      let (rest, still) =
        sweep-account now m (sweep_one size now k exp c) (sweep_one-IsValid size now k exp c v)
          (sweep_one-on now k exp c ∙ on) in
      (Perm.trans rest (sweep_one-account now k exp c v on), still)

  evict_front-account :
      (n : ℕ) (l : List (Elem V)) (c : Lru V)
      → c.list ≡ l
      → IsValid size c
      → c.on_evicted ≡ true
      → Perm (account (evict_front size n c)) (account c)
  unfolding evict_front
  evict_front-account zero l c h v on = Perm.refl (account c)
  evict_front-account (suc n) [] c h v on =
      rw (evict_front_empty size n c h) (Perm.refl (account c))
  evict_front-account (suc n) (e ∷ l) c h v on = elim (Bool-cases (over_budget size c)) [
    | inr fine ↦ rw (evict_front_stop size n c e l h fine) (Perm.refl (account c))
    | inl over ↦ rw (evict_front_next size n c e l h over) (
        Perm.trans
          (evict_front-account n l (remove_element size e c) (remove_front-list size c e l h)
            (remove_element-IsValid size e.key c v (find_key-head size c e l h))
            (removed-on c e ∙ on))
          (removed-account e.key c v on (find_key-head size c e l h)))
  ]

  -- With a callback installed, an eviction, on a write or by the cleanup timer, reports every entry
  -- that it drops, once, and nothing that stays.
  pub account-evict_locked :
      (now : ℕ) (c : Lru V)
      → IsValid size c
      → c.on_evicted ≡ true
      → Perm (account (evict_locked size now c)) (account c)
  unfolding evict_locked
  account-evict_locked now c v on =
      let swept = sweep size now c.expires c in
      let (first, still) = sweep-account now c.expires c v on in
      Perm.trans
        (evict_front-account (length swept.list) swept.list swept refl
          (sweep-IsValid size now c.expires c v) still)
        first
