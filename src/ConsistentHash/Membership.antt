-- ===== src/ConsistentHash/Membership.antt =====
-- `Add` and `Remove` of consistenthash/con_hash.go: the invariant, the members and the points.
use locache.Base.{
  ℕ, ◌≡◌, inl, inr, refl, sym, ◌∙◌, ap, ite, if_pos, if_neg, none, some, List, [], ◌∷◌, Bool, true,
  false, if◌then◌else◌, arith, retain, Option-cases,
}
use locache.Base.Str.{Str, str_dec}
use locache.Base.Map.{lookup, delete, lookup-insert, lookup-delete}
use locache.ConsistentHash.{Ring, add_node, add_nodes, add, remove, is_other}
use locache.ConsistentHash.Order.{Point, sort_points}
use locache.ConsistentHash.Sorting.{
  IsSorted, sort-In, sort-IsSorted, IsSorted-Unrepeated, IsSorted-unique, retain-In,
  retain-IsSorted,
}
use locache.ConsistentHash.Invariant.{IsPointOf, IsExact, IsRing, joined-IsExact}

IsRing-IsExact : (m : Ring) → IsRing m → IsExact m
IsRing-IsExact m v = record {
  exact = v.exact;
  apart = IsSorted-Unrepeated m.points v.sorted;
  named = v.named;
}

-- While `Add` runs: the points are exact, and sorted as long as nothing has changed.
abbrev IsOngoing : Ring × Bool → Type 0
IsOngoing (m, changed) = IsExact m × (changed ≡ false → IsSorted m.points)

add_node-IsOngoing : (node : Str) (st : Ring × Bool) → IsOngoing st → IsOngoing (add_node node st)
unfolding add_node
add_node-IsOngoing [] (m, changed) h = h
add_node-IsOngoing (b ∷ name) (m, changed) h = elim (Option-cases (lookup (b ∷ name) m.nodes)) [
  | inl fresh ↦ rw (fresh, add_node) (joined-IsExact m h.0 (b ∷ name) fresh (λ e. cc), λ e. cc)
  | inr (u, old) ↦ rw (old, add_node) h
]

add_nodes-IsOngoing :
    (nodes : List Str) (st : Ring × Bool) → IsOngoing st → IsOngoing (add_nodes nodes st)
unfolding add_nodes
add_nodes-IsOngoing [] st h = h
add_nodes-IsOngoing (node ∷ rest) st h =
    add_nodes-IsOngoing rest (add_node node st) (add_node-IsOngoing node st h)

sorted-IsRing : (m : Ring) → IsExact m → IsRing (record m { points = sort_points m.points })
sorted-IsRing m v = record {
  exact = λ p. (
    (λ h. (v.exact p).0 ((sort-In p m.points).0 h)),
    (λ h. (sort-In p m.points).1 ((v.exact p).1 h)),
  );
  sorted = sort-IsSorted m.points v.apart;
  named = v.named;
}

settled-IsRing :
    (m : Ring) (changed : Bool)
    → IsOngoing (m, changed)
    → IsRing (if changed then record m { points = sort_points m.points } else m)
settled-IsRing m true h = sorted-IsRing m h.0
settled-IsRing m false h = record { exact = h.0.exact; sorted = h.1 refl; named = h.0.named }

-- `Add` keeps the ring exact and sorted, whatever the list of nodes.
pub add-IsRing : (nodes : List Str) (m : Ring) → IsRing m → IsRing (add nodes m).0
unfolding add
add-IsRing [] m v = v
add-IsRing (node ∷ rest) m v =
    let done = add_nodes (node ∷ rest) (m, false) in
    settled-IsRing done.0 done.1
      (add_nodes-IsOngoing (node ∷ rest) (m, false) (IsRing-IsExact m v, λ e. v.sorted))

-- `Remove` keeps the ring exact and sorted.
pub remove-IsRing : (node : Str) (m : Ring) → IsRing m → IsRing (remove node m).0
unfolding remove
remove-IsRing [] m v = v
remove-IsRing (b ∷ name) m v = elim (Option-cases (lookup (b ∷ name) m.nodes)) [
  | inl missing ↦ rw (missing, remove) v
  | inr (u, old) ↦ rw (old, remove) gone
]
  where
    gone : IsRing (record m {
      points = retain (is_other (b ∷ name)) m.points;
      nodes = delete (b ∷ name) m.nodes;
    })
    gone = record {
      exact = λ p. (
        (λ h.
            let k = (retain-In (is_other (b ∷ name)) p m.points).0 h in
            let old = (v.exact p).0 k.0 in
            (ground (arith, lookup-delete p.node (b ∷ name) m.nodes), old.1, old.2)),
        (λ h. (retain-In (is_other (b ∷ name)) p m.points).1 (
          (v.exact p).1 (ground (arith, lookup-delete p.node (b ∷ name) m.nodes), h.1, h.2),
          ground (arith, lookup-delete p.node (b ∷ name) m.nodes),
        )),
      );
      sorted = retain-IsSorted (is_other (b ∷ name)) m.points v.sorted;
      named = ground (arith, lookup-delete [] (b ∷ name) m.nodes, v.named);
    }

-- The nodes of a list that `Add` takes: all but the empty name.
abbrev pub is_listed : Str → List Str → Bool
is_listed j [] = false
is_listed j ([] ∷ rest) = is_listed j rest
is_listed j ((b ∷ name) ∷ rest) = ite (str_dec (b ∷ name) j) true (is_listed j rest)

add_node-nodes :
    (b : ℕ) (name : Str) (st : Ring × Bool) (j : Str)
    → lookup j (add_node (b ∷ name) st).0.nodes
      ≡ ite (str_dec (b ∷ name) j) (some tt) (lookup j st.0.nodes)
unfolding add_node
add_node-nodes b name (m, changed) j = elim (Option-cases (lookup (b ∷ name) m.nodes)) [
  | inl fresh ↦ rw (fresh, add_node) (lookup-insert j (b ∷ name) tt m.nodes)
  | inr (u, old) ↦
      rw (old, add_node)
        (elim (str_dec (b ∷ name) j) [
          | yes e ↦ rw (if_pos _ e) (ap (λ i. lookup i m.nodes) (sym e) ∙ old)
          | no ne ↦ rw (if_neg _ ne)
        ])
]

add_node_empty : (st : Ring × Bool) → add_node [] st ≡ st
unfolding add_node
add_node_empty (m, changed) = refl

add_nodes-nodes :
    (nodes : List Str) (st : Ring × Bool) (j : Str)
    → lookup j (add_nodes nodes st).0.nodes
      ≡ (if is_listed j nodes then some tt else lookup j st.0.nodes)
unfolding add_nodes
add_nodes-nodes [] st j = refl
add_nodes-nodes ([] ∷ rest) st j =
    add_nodes-nodes rest (add_node [] st) j
    ∙ ap (λ (x : Ring × Bool). if is_listed j rest then some tt else lookup j x.0.nodes)
        (add_node_empty st)
add_nodes-nodes ((b ∷ name) ∷ rest) st j =
    add_nodes-nodes rest (add_node (b ∷ name) st) j ∙ ground (arith, add_node-nodes b name st j)

settled-nodes :
    (m : Ring) (changed : Bool)
    → (if changed then record m { points = sort_points m.points } else m).nodes ≡ m.nodes
settled-nodes m true = refl
settled-nodes m false = refl

settled-config :
    (m : Ring) (changed : Bool)
    → (if changed then record m { points = sort_points m.points } else m).config ≡ m.config
settled-config m true = refl
settled-config m false = refl

-- After `Add` the members are those of the list but for the empty name, with those from before.
pub add-nodes :
    (nodes : List Str) (m : Ring) (j : Str)
    → lookup j (add nodes m).0.nodes ≡ (if is_listed j nodes then some tt else lookup j m.nodes)
unfolding add
add-nodes [] m j = refl
add-nodes (node ∷ rest) m j =
    let done = add_nodes (node ∷ rest) (m, false) in
    ap (lookup j) (settled-nodes done.0 done.1) ∙ add_nodes-nodes (node ∷ rest) (m, false) j

-- After `Remove` the members are those from before without the node.
pub remove-nodes :
    (node : Str) (m : Ring) (j : Str)
    → IsRing m
    → lookup j (remove node m).0.nodes ≡ ite (str_dec node j) none (lookup j m.nodes)
unfolding remove
remove-nodes [] m j v = elim (str_dec [] j) [
  | yes e ↦ rw (if_pos _ e) (ap (λ i. lookup i m.nodes) (sym e) ∙ v.named)
  | no ne ↦ rw (if_neg _ ne)
]
remove-nodes (b ∷ name) m j v = elim (Option-cases (lookup (b ∷ name) m.nodes)) [
  | inr (u, old) ↦ rw (old, remove) (lookup-delete j (b ∷ name) m.nodes)
  | inl missing ↦
      rw (missing, remove)
        (elim (str_dec (b ∷ name) j) [
          | yes e ↦ rw (if_pos _ e) (ap (λ i. lookup i m.nodes) (sym e) ∙ missing)
          | no ne ↦ rw (if_neg _ ne)
        ])
]

add_node-config : (node : Str) (st : Ring × Bool) → (add_node node st).0.config ≡ st.0.config
unfolding add_node
add_node-config [] (m, changed) = refl
add_node-config (b ∷ name) (m, changed) = ground arith

add_nodes-config :
    (nodes : List Str) (st : Ring × Bool) → (add_nodes nodes st).0.config ≡ st.0.config
unfolding add_nodes
add_nodes-config [] st = refl
add_nodes-config (node ∷ rest) st =
    add_nodes-config rest (add_node node st) ∙ add_node-config node st

pub add-config : (nodes : List Str) (m : Ring) → (add nodes m).0.config ≡ m.config
unfolding add
add-config [] m = refl
add-config (node ∷ rest) m =
    let done = add_nodes (node ∷ rest) (m, false) in
    settled-config done.0 done.1 ∙ add_nodes-config (node ∷ rest) (m, false)

pub remove-config : (node : Str) (m : Ring) → (remove node m).0.config ≡ m.config
unfolding remove
remove-config [] m = refl
remove-config (b ∷ name) m = ground arith

pub config_replace :
    (m n : Ring)
    → m.config ≡ n.config
    → ((j : Str) → lookup j m.nodes ≡ lookup j n.nodes)
    → (p : Point) → IsPointOf m p
    → IsPointOf n p
config_replace m n same members p h =
    (sym (members p.node) ∙ h.0, ground (arith, h.1), ground (arith, h.2))

-- Two rings of one configuration with the same members have the same points in the same order, by
-- whatever calls they came to be.
pub points_unique :
    (m n : Ring)
    → IsRing m
    → IsRing n
    → m.config ≡ n.config
    → ((j : Str) → lookup j m.nodes ≡ lookup j n.nodes)
    → m.points ≡ n.points
points_unique m n v w same members = IsSorted-unique m.points n.points v.sorted w.sorted λ p. (
  (λ h. (w.exact p).1 (config_replace m n same members p ((v.exact p).0 h))),
  (λ h. (v.exact p).1 (config_replace n m (sym same) (λ j. sym (members j)) p ((w.exact p).0 h))),
)
