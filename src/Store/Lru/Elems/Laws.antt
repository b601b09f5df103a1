-- ===== src/Store/Lru/Elems/Laws.antt =====
-- Laws of the element lists of store/lru.go.
use locache.Base.{ℕ, ◌≤◌, ◌<◌, ◌≡◌, refl, ite, none, some, List, [], ◌∷◌, ◌++◌, ℕ_discrete, arith}
use locache.Base.Str.{Str, str_dec}
use locache.Store.Lru.Elems.{Elem, find_ref, remove_ref, find_key, Distinct}

module _ {V : Type 0} where
  pub find_key-key : (k : Str) (l : List (Elem V)) {e : Elem V} → find_key k l ≡ some e → e.key ≡ k
  unfolding find_key
  find_key-key k [] h = cc
  find_key-key k (x ∷ l) {e} h = ground (arith, find_key-key k l {e = e})

  pub find_ref-find_key :
      (n : ℕ) (k : Str) (l : List (Elem V)) {e : Elem V}
      → Distinct n l
      → find_key k l ≡ some e
      → find_ref e.ref l ≡ some e
  unfolding find_key find_ref
  find_ref-find_key n k [] d h = cc
  find_ref-find_key n k (x ∷ l) {e} d h = ground (arith, find_ref-find_key n k l {e = e} d.3)

  find_ref-remove_ref :
      (q r : ℕ) (l : List (Elem V)) → find_ref q l ≡ none → find_ref q (remove_ref r l) ≡ none
  unfolding find_ref remove_ref
  find_ref-remove_ref q r [] h = refl
  find_ref-remove_ref q r (x ∷ l) h = ground (arith, find_ref-remove_ref q r l)

  find_key-remove_ref :
      (k : Str) (r : ℕ) (l : List (Elem V))
      → find_key k l ≡ none
      → find_key k (remove_ref r l) ≡ none
  unfolding find_key remove_ref
  find_key-remove_ref k r [] h = refl
  find_key-remove_ref k r (x ∷ l) h = ground (arith, find_key-remove_ref k r l)

  pub remove_ref-Distinct :
      (n r : ℕ) (l : List (Elem V)) → Distinct n l → Distinct n (remove_ref r l)
  unfolding remove_ref
  remove_ref-Distinct n r [] d = tt
  remove_ref-Distinct n r (x ∷ l) d = ground (
    arith,
    remove_ref-Distinct n r l d.3,
    find_ref-remove_ref x.ref r l d.1,
    find_key-remove_ref x.key r l d.2,
  )

  -- Taking away an element hides its key and no other.
  pub find_key-remove :
      (n : ℕ) (j k : Str) (l : List (Elem V)) {e : Elem V}
      → Distinct n l
      → find_key k l ≡ some e
      → find_key j (remove_ref e.ref l) ≡ ite (str_dec k j) none (find_key j l)
  unfolding find_key remove_ref
  find_key-remove n j k [] d h = cc
  find_key-remove n j k (x ∷ l) {e} d h = ground (
    arith,
    find_key-remove n j k l {e = e} d.3,
    find_ref-find_key n k l {e = e} d.3,
    find_key-key k l {e = e},
  )

  pub find_key-append :
      (j : Str) (l : List (Elem V)) (e : Elem V)
      → find_key j (l ++ e ∷ [])
        ≡ elim (find_key j l) [ none ↦ ite (str_dec e.key j) (some e) none | some x ↦ some x ]
  unfolding find_key
  find_key-append j [] e = refl
  find_key-append j (x ∷ l) e = ground (arith, find_key-append j l e)

  pub find_ref-append :
      (q : ℕ) (l : List (Elem V)) (e : Elem V)
      → find_ref q (l ++ e ∷ [])
        ≡ elim (find_ref q l) [ none ↦ ite (ℕ_discrete e.ref q) (some e) none | some x ↦ some x ]
  unfolding find_ref
  find_ref-append q [] e = refl
  find_ref-append q (x ∷ l) e = ground (arith, find_ref-append q l e)

  pub append-Distinct :
      (n : ℕ) (l : List (Elem V)) (e : Elem V)
      → Distinct n l
      → e.ref < n
      → find_ref e.ref l ≡ none
      → find_key e.key l ≡ none
      → Distinct n (l ++ e ∷ [])
  unfolding find_ref find_key
  append-Distinct n [] e d h r k = (h, refl, refl, tt)
  append-Distinct n (x ∷ l) e d h r k =
      ground
        (arith, append-Distinct n l e d.3 h, find_ref-append x.ref l e, find_key-append x.key l e)

  pub Distinct-mono : (n m : ℕ) (l : List (Elem V)) → n ≤ m → Distinct n l → Distinct m l
  Distinct-mono n m [] h d = tt
  Distinct-mono n m (x ∷ l) h d = (omega arith, d.1, d.2, Distinct-mono n m l h d.3)

  -- An identity that is not yet given out stands for no element.
  pub find_ref_fresh : (n q : ℕ) (l : List (Elem V)) → n ≤ q → Distinct n l → find_ref q l ≡ none
  unfolding find_ref
  find_ref_fresh n q [] h d = refl
  find_ref_fresh n q (x ∷ l) h d = ground (arith, find_ref_fresh n q l h d.3)

  -- Once taken away, an identity stands for no element.
  pub find_ref-remove_self :
      (n r : ℕ) (l : List (Elem V)) → Distinct n l → find_ref r (remove_ref r l) ≡ none
  unfolding find_ref remove_ref
  find_ref-remove_self n r [] d = refl
  find_ref-remove_self n r (x ∷ l) d = ground (arith, find_ref-remove_self n r l d.3)
