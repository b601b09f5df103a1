-- ===== src/Store/Lru/Evict.antt =====
-- `evictLocked` of store/lru.go: the two loops against the sequence of entries.
pub mod Sweep
use locache.Base.{
  ℕ, zero, suc, ◌^◌, ◌≤◌, ◌<◌, ◌≡◌, refl, sym, ◌∙◌, ap, ap₂, subst, ite, if_pos, ℕ_discrete, none,
  some, List, [], ◌∷◌, arith, Option-cases, inl, inr, Bool-cases, Bool, true, false, ◌&&◌, ◌||◌,
  not, retain, ltb, leb, if◌then◌else◌, length,
}
use locache.Base.Words.{gt64}
use locache.Base.Str.{Str, str_dec}
use locache.Base.Map.{Map, IsMap, lookup}
use locache.Store.Lru.Elems.{Elem, remove_ref, find_key, Distinct}
use locache.Store.Lru.{
  Lru, is_past, find_elem, remove_element, sweep, over_budget, evict_front, evict_locked,
}
use locache.Store.Lru.Spec.{Entry, without, is_live, live, weigh, trim}
use locache.Store.Lru.Spec.Laws.{weigh-retain-le, trim_step}
use locache.Store.Lru.Invariant.{
  IsValid, view, entries, find_elem-find_key, remove_element-IsValid, remove_element-view,
  entries-delete, weigh-entries, without_absent,
}
use locache.Store.Lru.Evict.Sweep.{sweep-IsValid, sweep-live, sweep_one, sweep_one-max}

module _ {V : Type 0} (size : V → ℕ) where
  over_budget_lem :
      (c : Lru V)
      → IsValid size c
      → c.max_bytes < 2 ^ 64
      → weigh size (view c) < 2 ^ 63
      → over_budget size c ≡ (gt64 c.max_bytes 0 && ltb c.max_bytes (weigh size (view c)))
  unfolding over_budget gt64
  over_budget_lem c v word small = ground (arith, v.bytes, weigh-entries size c.expires c.list)

  pub find_key-head :
      (c : Lru V) (e : Elem V) (l : List (Elem V)) → c.list ≡ e ∷ l → find_key e.key c.list ≡ some e
  unfolding find_key
  find_key-head c e l h = rw h (if_pos (str_dec e.key e.key) refl _ _)

  pub remove_front-list :
      (c : Lru V) (e : Elem V) (l : List (Elem V))
      → c.list ≡ e ∷ l
      → (remove_element size e c).list ≡ l
  unfolding remove_element remove_ref
  remove_front-list c e l h = rw (h, remove_ref) (if_pos (ℕ_discrete e.ref e.ref) refl _ _)

  -- Removing the front element takes the first entry away.
  remove_front-entries :
      (c : Lru V) (e : Elem V) (l : List (Elem V))
      → IsValid size c
      → c.list ≡ e ∷ l
      → entries (remove_element size e c).expires l ≡ entries c.expires l
  unfolding remove_element
  remove_front-entries c e l v h =
      entries-delete size c.expires e.key l (subst (Distinct c.next_ref) h v.distinct).2

  evict_front-IsValid :
      (n : ℕ) (l : List (Elem V)) (c : Lru V)
      → c.list ≡ l
      → IsValid size c
      → IsValid size (evict_front size n c)
  unfolding evict_front
  evict_front-IsValid zero l c h v = v
  evict_front-IsValid (suc n) [] c h v = rw (h, evict_front) v
  evict_front-IsValid (suc n) (e ∷ l) c h v = elim (Bool-cases (over_budget size c)) [
    | inr fine ↦ rw (h, evict_front) (rw fine v)
    | inl over ↦
        rw (h, evict_front)
          (rw over (
            evict_front-IsValid n l (remove_element size e c) (remove_front-list c e l h)
              (remove_element-IsValid size e.key c v (find_key-head c e l h))))
  ]

  over_budget_head :
      (c : Lru V) (e : Elem V) (l : List (Elem V))
      → c.list ≡ e ∷ l
      → IsValid size c
      → c.max_bytes < 2 ^ 64
      → weigh size (view c) < 2 ^ 63
      → over_budget size c
        ≡ (gt64 c.max_bytes 0 && ltb c.max_bytes (weigh size (entries c.expires (e ∷ l))))
  over_budget_head c e l h v word small =
      subst
        (λ x.
          over_budget size c
          ≡ (gt64 c.max_bytes 0 && ltb c.max_bytes (weigh size (entries c.expires x))))
        h (over_budget_lem c v word small)

  remove_front-view :
      (c : Lru V) (e : Elem V) (l : List (Elem V))
      → IsValid size c
      → c.list ≡ e ∷ l
      → view (remove_element size e c) ≡ entries c.expires l
  remove_front-view c e l v h =
      ap (entries (remove_element size e c).expires) (remove_front-list c e l h)
      ∙ remove_front-entries c e l v h

  remove_front-weigh :
      (c : Lru V) (e : Elem V) (l : List (Elem V))
      → IsValid size c
      → c.list ≡ e ∷ l
      → weigh size (view (remove_element size e c)) ≤ weigh size (view c)
  unfolding weigh entries
  remove_front-weigh c e l v h = rw (remove_front-view c e l v h) (
      subst (λ x. weigh size (entries c.expires l) ≤ weigh size (entries c.expires x)) (sym h)
        (omega arith))

  remove_element-max : (c : Lru V) (e : Elem V) → (remove_element size e c).max_bytes ≡ c.max_bytes
  unfolding remove_element
  remove_element-max c e = refl

  -- The second loop, on as much fuel as there are elements, leaves the longest end that fits.
  evict_front-trim :
      (n : ℕ) (l : List (Elem V)) (c : Lru V)
      → c.list ≡ l
      → length l ≤ n
      → IsValid size c
      → c.max_bytes < 2 ^ 64
      → weigh size (view c) < 2 ^ 63
      → view (evict_front size n c) ≡ trim size c.max_bytes (entries c.expires l)
  unfolding evict_front trim entries
  evict_front-trim zero [] c h k v word small = rw h
  evict_front-trim zero (e ∷ l) c h k v word small = absurd (omega arith)
  evict_front-trim (suc n) [] c h k v word small = rw (h, evict_front) (rw h)
  evict_front-trim (suc n) (e ∷ l) c h k v word small =
      let budget = over_budget_head c e l h v word small in
      elim (Bool-cases (over_budget size c)) [
        | inr fine ↦
            rw (h, evict_front)
              (rw fine (
                ap (entries c.expires) h
                ∙ sym (trim_step size c.max_bytes _ _ ∙ rw (← budget) (rw fine))))
        | inl over ↦
            rw (h, evict_front)
              (rw over (
                evict_front-trim n l (remove_element size e c) (remove_front-list c e l h)
                  (omega arith) (remove_element-IsValid size e.key c v (find_key-head c e l h))
                  (rw (remove_element-max c e) word) (omega (arith, remove_front-weigh c e l v h))
                ∙ rw (remove_element-max c e, remove_front-entries c e l v h)
                    (sym (trim_step size c.max_bytes _ _ ∙ rw (← budget) (rw over)))))
      ]

  pub evict_locked-IsValid :
      (now : ℕ) (c : Lru V) → IsValid size c → IsValid size (evict_locked size now c)
  unfolding evict_locked
  evict_locked-IsValid now c v =
      let swept = sweep size now c.expires c in
      evict_front-IsValid (length swept.list) swept.list swept refl
        (sweep-IsValid size now c.expires c v)

  sweep-max : (now : ℕ) (m : Map ℕ) (c : Lru V) → (sweep size now m c).max_bytes ≡ c.max_bytes
  unfolding sweep sweep_one
  sweep-max now [] c = refl
  sweep-max now ((k, exp) ∷ m) c =
      sweep-max now m (sweep_one size now k exp c) ∙ sweep_one-max size now k exp c

  -- An eviction drops the entries whose deadline has come, then, under a positive limit, the least
  -- recently used ones until the rest fits, and nothing more.
  pub evict_locked-trim :
      (now : ℕ) (c : Lru V)
      → IsValid size c
      → c.max_bytes < 2 ^ 64
      → weigh size (view c) < 2 ^ 63
      → view (evict_locked size now c) ≡ trim size c.max_bytes (live now (view c))
  unfolding evict_locked
  evict_locked-trim now c v word small =
      let swept = sweep size now c.expires c in
      let kept = sweep-live size now c v in
      evict_front-trim (length swept.list) swept.list swept refl (omega arith)
        (sweep-IsValid size now c.expires c v) (rw (sweep-max now c.expires c) word)
        (rw kept (omega (arith, weigh-retain-le size (is_live now) (view c))))
      ∙ ap₂ (trim size) (sweep-max now c.expires c) kept

  -- The loop stops at a list that is empty or fits, and else goes on without its front element.
  pub evict_front_empty : (n : ℕ) (c : Lru V) → c.list ≡ [] → evict_front size (suc n) c ≡ c
  unfolding evict_front
  evict_front_empty n c h = ground arith

  pub evict_front_stop :
      (n : ℕ) (c : Lru V) (e : Elem V) (l : List (Elem V))
      → c.list ≡ e ∷ l
      → over_budget size c ≡ false
      → evict_front size (suc n) c ≡ c
  unfolding evict_front
  evict_front_stop n c e l h fine = ground arith

  pub evict_front_next :
      (n : ℕ) (c : Lru V) (e : Elem V) (l : List (Elem V))
      → c.list ≡ e ∷ l
      → over_budget size c ≡ true
      → evict_front size (suc n) c ≡ evict_front size n (remove_element size e c)
  unfolding evict_front
  evict_front_next n c e l h over = ground arith

  evict_front-max :
      (n : ℕ) (l : List (Elem V)) (c : Lru V)
      → c.list ≡ l
      → (evict_front size n c).max_bytes ≡ c.max_bytes
  unfolding evict_front
  evict_front-max zero l c h = refl
  evict_front-max (suc n) [] c h = rw (h, evict_front)
  evict_front-max (suc n) (e ∷ l) c h = elim (Bool-cases (over_budget size c)) [
    | inr fine ↦ rw (h, evict_front) (rw fine)
    | inl over ↦
        rw (h, evict_front)
          (rw over (
            evict_front-max n l (remove_element size e c) (remove_front-list c e l h)
            ∙ remove_element-max c e))
  ]

  pub evict_locked-max : (now : ℕ) (c : Lru V) → (evict_locked size now c).max_bytes ≡ c.max_bytes
  unfolding evict_locked
  evict_locked-max now c =
      evict_front-max (length (sweep size now c.expires c).list) _ (sweep size now c.expires c) refl
      ∙ sweep-max now c.expires c
