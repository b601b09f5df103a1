-- ===== src/ConsistentHash/Invariant.antt =====
-- The invariant of the ring of consistenthash/con_hash.go, and what keeps it.
use locache.Base.{
  ℕ, zero, suc, ◌+◌, ◌≤◌, ◌<◌, ◌≡◌, ◌≢◌, ◌⊎◌, ◌↔◌, inl, inr, refl, sym, ap, none, some, List, [],
  ◌∷◌, ◌++◌, arith, ℕ_discrete,
}
use locache.Base.Str.{Str, str_dec}
use locache.Base.Map.{lookup, insert, lookup-insert}
use locache.ConsistentHash.{Ring, rounds, label, node_points}
use locache.ConsistentHash.Order.{Point}
use locache.ConsistentHash.Sorting.{In, IsSorted, Unrepeated}

-- The points that the members of a ring should have.
abbrev pub IsPointOf : Ring → Point → Type 0
IsPointOf m p =
    (lookup p.node m.nodes ≡ some tt)
    × (p.replica < rounds m.config)
    × (p.hash ≡ m.config.hash_func (label p.node p.replica))

-- Each virtual node of each member stands once in the ring, and nothing else does; no member has the
-- empty name.
pub record IsExact (m : Ring) : Type 0 where
  pub exact : (p : Point) → In p m.points ↔ IsPointOf m p
  pub apart : Unrepeated m.points
  pub named : lookup [] m.nodes ≡ none

-- Between calls the points are sorted too.
pub record IsRing (m : Ring) : Type 0 where
  pub exact : (p : Point) → In p m.points ↔ IsPointOf m p
  pub sorted : IsSorted m.points
  pub named : lookup [] m.nodes ≡ none

In-append_left : (p : Point) (xs ys : List Point) → In p xs → In p (xs ++ ys)
In-append_left p [] ys h = absurd h
In-append_left p (x ∷ xs) ys (inl e) = inl e
In-append_left p (x ∷ xs) ys (inr h) = inr (In-append_left p xs ys h)

In-append_right : (p : Point) (xs ys : List Point) → In p ys → In p (xs ++ ys)
In-append_right p [] ys h = h
In-append_right p (x ∷ xs) ys h = inr (In-append_right p xs ys h)

In-append : (p : Point) (xs ys : List Point) → In p (xs ++ ys) → In p xs ⊎ In p ys
In-append p [] ys h = inr h
In-append p (x ∷ xs) ys (inl e) = inl (inl e)
In-append p (x ∷ xs) ys (inr h) = elim (In-append p xs ys h) [ inl k ↦ inl (inr k) | inr k ↦ inr k ]

append-Unrepeated :
    (xs ys : List Point)
    → Unrepeated xs
    → Unrepeated ys
    → ((p : Point) → In p xs → ¬ In p ys)
    → Unrepeated (xs ++ ys)
append-Unrepeated [] ys u v d = v
append-Unrepeated (x ∷ xs) ys u v d = (
  (λ h. elim (In-append x xs ys h) [ inl k ↦ u.0 k | inr k ↦ d x (inl refl) k ]),
  append-Unrepeated xs ys u.1 v (λ p h. d p (inr h)),
)

abbrev IsReplica : (Str → ℕ) → Str → ℕ → ℕ → Point → Type 0
IsReplica hash node i left p =
    (p.node ≡ node)
    × (i ≤ p.replica)
    × (p.replica < i + left)
    × (p.hash ≡ hash (label node p.replica))

node_points-In_sound :
    (hash : Str → ℕ) (node : Str) (i left : ℕ) (p : Point)
    → In p (node_points hash node i left)
    → IsReplica hash node i left p
unfolding node_points
node_points-In_sound hash node i zero p h = absurd h
node_points-In_sound hash node i (suc left) p (inl e) =
    (ap (λ (q : Point). q.node) e, ground arith, ground arith, ground arith)
node_points-In_sound hash node i (suc left) p (inr h) =
    let k = node_points-In_sound hash node (suc i) left p h in (k.0, omega arith, omega arith, k.3)

node_points-In_complete :
    (hash : Str → ℕ) (node : Str) (i left : ℕ) (p : Point)
    → IsReplica hash node i left p
    → In p (node_points hash node i left)
unfolding node_points
node_points-In_complete hash node i zero p h = absurd (omega arith)
node_points-In_complete hash node i (suc left) p h = elim (ℕ_discrete p.replica i) [
  | yes e ↦ inl (ground arith)
  | no ne ↦
      inr (node_points-In_complete hash node (suc i) left p (h.0, omega arith, omega arith, h.3))
]

node_points-Unrepeated :
    (hash : Str → ℕ) (node : Str) (i left : ℕ) → Unrepeated (node_points hash node i left)
unfolding node_points
node_points-Unrepeated hash node i zero = tt
node_points-Unrepeated hash node i (suc left) = (
  (λ h. let k = node_points-In_sound hash node (suc i) left _ h in omega (arith, k.1)),
  node_points-Unrepeated hash node (suc i) left,
)

module _ (m : Ring) (v : IsExact m) (node : Str) (fresh : lookup node m.nodes ≡ none)
    (full : node ≢ []) where
  abbrev pub joined : Ring
  joined = record m {
    nodes = insert node tt m.nodes;
    points = m.points ++ node_points m.config.hash_func node 0 (rounds m.config);
  }

  joined-exact : (p : Point) → In p joined.points ↔ IsPointOf joined p
  joined-exact p = (sound, complete)
    where
      sound : In p joined.points → IsPointOf joined p
      sound h = elim (In-append p m.points _ h) [
        | inl old ↦
            let k = (v.exact p).0 old in
            (ground (arith, lookup-insert p.node node tt m.nodes), k.1, k.2)
        | inr new_one ↦
            let k = node_points-In_sound m.config.hash_func node 0 (rounds m.config) p new_one in
            (ground (arith, lookup-insert p.node node tt m.nodes), omega (arith, k.2), ground arith)
      ]

      complete : IsPointOf joined p → In p joined.points
      complete h = elim (str_dec node p.node) [
        | yes e ↦ In-append_right p m.points _ (
            node_points-In_complete m.config.hash_func node 0 (rounds m.config) p
              (sym e, omega arith, omega (arith, h.1), ground arith))
        | no ne ↦
            In-append_left p m.points _
              ((v.exact p).1 (ground (arith, lookup-insert p.node node tt m.nodes), h.1, h.2))
      ]

  pub joined-IsExact : IsExact joined
  joined-IsExact = record {
    exact = joined-exact;
    apart =
        append-Unrepeated m.points _ v.apart
          (node_points-Unrepeated m.config.hash_func node 0 (rounds m.config))
          λ p old new_one.
            let k = node_points-In_sound m.config.hash_func node 0 (rounds m.config) p new_one in
            ground (arith, ((v.exact p).0 old).0);
    named = ground (arith, lookup-insert [] node tt m.nodes, v.named);
  }
