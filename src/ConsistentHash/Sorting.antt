-- ===== src/ConsistentHash/Sorting.antt =====
-- Strictly sorted lists of points, and the sort of consistenthash/con_hash.go.
use locache.Base.{
  ◌≡◌, ◌⊎◌, ◌↔◌, inl, inr, refl, sym, ◌∙◌, ap, ap₂, subst, List, [], ◌∷◌, Bool, true, false, arith,
  retain, Bool-cases,
}
use locache.ConsistentHash.Order.{
  Point, less, insert_point, sort_points, less_trans, less_irrefl, less_total,
}

abbrev pub In : Point → List Point → Type 0
In p [] = ⊥
In p (x ∷ l) = (p ≡ x) ⊎ In p l

-- The point is before every point of the list.
abbrev pub Before : Point → List Point → Type 0
Before p [] = Unit {0}
Before p (x ∷ l) = (less p x ≡ true) × Before p l

abbrev pub IsSorted : List Point → Type 0
IsSorted [] = Unit {0}
IsSorted (x ∷ l) = Before x l × IsSorted l

abbrev pub Unrepeated : List Point → Type 0
Unrepeated [] = Unit {0}
Unrepeated (x ∷ l) = (¬ In x l) × Unrepeated l

pub less-Before : (p x : Point) (l : List Point) → less p x ≡ true → Before x l → Before p l
less-Before p x [] h b = tt
less-Before p x (y ∷ l) h b = (less_trans p x y h b.0, less-Before p x l h b.1)

pub Before-In : (p q : Point) (l : List Point) → Before p l → In q l → less p q ≡ true
Before-In p q [] b h = absurd h
Before-In p q (x ∷ l) b (inl e) = rw e b.0
Before-In p q (x ∷ l) b (inr h) = Before-In p q l b.1 h

pub Before-irrefl : (p : Point) (l : List Point) → Before p l → ¬ In p l
Before-irrefl p l b h = cc (Before-In p p l b h, less_irrefl p)

insert-In : (q p : Point) (l : List Point) → In q (insert_point p l) ↔ ((q ≡ p) ⊎ In q l)
unfolding insert_point
insert-In q p [] = ((λ h. h), (λ h. h))
insert-In q p (x ∷ l) = elim (Bool-cases (less p x)) [
  | inl first ↦ rw first ((λ h. h), (λ h. h))
  | inr later ↦ rw later (go (insert-In q p l).0, back (insert-In q p l).1)
]
  where
    go :
        (In q (insert_point p l) → (q ≡ p) ⊎ In q l)
        → (q ≡ x) ⊎ In q (insert_point p l)
        → (q ≡ p) ⊎ (q ≡ x) ⊎ In q l
    go f (inl e) = inr (inl e)
    go f (inr h) = elim (f h) [ inl e ↦ inl e | inr k ↦ inr (inr k) ]

    back :
        ((q ≡ p) ⊎ In q l → In q (insert_point p l))
        → (q ≡ p) ⊎ (q ≡ x) ⊎ In q l
        → (q ≡ x) ⊎ In q (insert_point p l)
    back f (inl e) = inr (f (inl e))
    back f (inr (inl e)) = inl e
    back f (inr (inr h)) = inr (f (inr h))

pub sort-In : (q : Point) (l : List Point) → In q (sort_points l) ↔ In q l
unfolding sort_points
sort-In q [] = ((λ h. h), (λ h. h))
sort-In q (x ∷ l) = (
  (λ h. elim ((insert-In q x (sort_points l)).0 h) [
    | inl e ↦ inl e
    | inr k ↦ inr ((sort-In q l).0 k)
  ]),
  (λ h.
      (insert-In q x (sort_points l)).1
        (elim h [ inl e ↦ inl e | inr k ↦ inr ((sort-In q l).1 k) ])),
)

Before-insert :
    (x p : Point) (l : List Point) → less x p ≡ true → Before x l → Before x (insert_point p l)
unfolding insert_point
Before-insert x p [] h b = (h, tt)
Before-insert x p (y ∷ l) h b = elim (Bool-cases (less p y)) [
  | inl first ↦ rw first (h, b)
  | inr later ↦ rw later (b.0, Before-insert x p l h b.1)
]

insert-IsSorted : (p : Point) (l : List Point) → ¬ In p l → IsSorted l → IsSorted (insert_point p l)
unfolding insert_point
insert-IsSorted p [] h s = (tt, tt)
insert-IsSorted p (x ∷ l) h s = elim (Bool-cases (less p x)) [
  | inl first ↦ rw first ((first, less-Before p x l first s.0), s)
  | inr later ↦ rw later (
    Before-insert x p l (comes_after later (Bool-cases (less x p))) s.0,
    insert-IsSorted p l (λ k. h (inr k)) s.1,
  )
]
  where
    comes_after : less p x ≡ false → (less x p ≡ true) ⊎ (less x p ≡ false) → less x p ≡ true
    comes_after later (inl e) = e
    comes_after later (inr e) = absurd (h (inl (less_total p x later e)))

-- A sort of unrepeated points is strictly sorted.
pub sort-IsSorted : (l : List Point) → Unrepeated l → IsSorted (sort_points l)
unfolding sort_points
sort-IsSorted [] u = tt
sort-IsSorted (x ∷ l) u =
    insert-IsSorted x (sort_points l) (λ h. u.0 ((sort-In x l).0 h)) (sort-IsSorted l u.1)

pub IsSorted-Unrepeated : (l : List Point) → IsSorted l → Unrepeated l
IsSorted-Unrepeated [] s = tt
IsSorted-Unrepeated (x ∷ l) s = (Before-irrefl x l s.0, IsSorted-Unrepeated l s.1)

-- Two strictly sorted lists with the same elements are equal.
pub IsSorted-unique :
    (l m : List Point) → IsSorted l → IsSorted m → ((p : Point) → In p l ↔ In p m) → l ≡ m
IsSorted-unique [] [] s t h = refl
IsSorted-unique [] (y ∷ m) s t h = absurd ((h y).1 (inl refl))
IsSorted-unique (x ∷ l) [] s t h = absurd ((h x).0 (inl refl))
IsSorted-unique (x ∷ l) (y ∷ m) s t h = ap₂ ◌∷◌ same (IsSorted-unique l m s.1 t.1 rest)
  where
    same : x ≡ y
    same = elim ((h x).0 (inl refl)) [
      | inl e ↦ e
      | inr k ↦ elim ((h y).1 (inl refl)) [
        | inl e ↦ sym e
        | inr j ↦
            cc (less_trans x y x (Before-In x y l s.0 j) (Before-In y x m t.0 k), less_irrefl x)
      ]
    ]

    forth : (p : Point) → In p l → In p m
    forth p k = elim ((h p).0 (inr k)) [
      | inr j ↦ j
      | inl e ↦ absurd (Before-irrefl x l s.0 (subst (λ q. In q l) (e ∙ sym same) k))
    ]

    back : (p : Point) → In p m → In p l
    back p k = elim ((h p).1 (inr k)) [
      | inr j ↦ j
      | inl e ↦ absurd (Before-irrefl y m t.0 (subst (λ q. In q m) (e ∙ same) k))
    ]

    rest : (p : Point) → In p l ↔ In p m
    rest p = (forth p, back p)

retain-In_sound :
    (keep : Point → Bool) (p : Point) (l : List Point)
    → In p (retain keep l)
    → In p l × (keep p ≡ true)
unfolding retain
retain-In_sound keep p [] h = absurd h
retain-In_sound keep p (x ∷ l) h = go (Bool-cases (keep x)) (retain-In_sound keep p l)
  where
    go :
        (keep x ≡ true) ⊎ (keep x ≡ false)
        → (In p (retain keep l) → In p l × (keep p ≡ true))
        → In p (x ∷ l) × (keep p ≡ true)
    go (inl stays) rec = elim (rw stays at h) [
      | inl e ↦ (inl e, ap keep e ∙ stays)
      | inr k ↦ (inr (rec k).0, (rec k).1)
    ]
    go (inr goes) rec = let k = rec (rw goes at h) in (inr k.0, k.1)

retain-In_complete :
    (keep : Point → Bool) (p : Point) (l : List Point)
    → In p l
    → keep p ≡ true
    → In p (retain keep l)
unfolding retain
retain-In_complete keep p [] h k = absurd h
retain-In_complete keep p (x ∷ l) (inl e) k = rw (ap keep (sym e) ∙ k) (inl e)
retain-In_complete keep p (x ∷ l) (inr h) k = elim (Bool-cases (keep x)) [
  | inl stays ↦ rw stays (inr (retain-In_complete keep p l h k))
  | inr goes ↦ rw goes (retain-In_complete keep p l h k)
]

pub retain-In :
    (keep : Point → Bool) (p : Point) (l : List Point)
    → In p (retain keep l) ↔ (In p l × (keep p ≡ true))
retain-In keep p l = (retain-In_sound keep p l, λ h. retain-In_complete keep p l h.0 h.1)

Before-retain :
    (keep : Point → Bool) (p : Point) (l : List Point) → Before p l → Before p (retain keep l)
unfolding retain
Before-retain keep p [] b = tt
Before-retain keep p (x ∷ l) b = ground (arith, Before-retain keep p l b.1)

pub retain-IsSorted : (keep : Point → Bool) (l : List Point) → IsSorted l → IsSorted (retain keep l)
unfolding retain
retain-IsSorted keep [] s = tt
retain-IsSorted keep (x ∷ l) s =
    ground (arith, retain-IsSorted keep l s.1, Before-retain keep x l s.0)
