-- ===== src/ConsistentHash/Owners.antt =====
-- The owners of keys in consistenthash/con_hash.go, and changes of members.
pub mod Points
use locache.Base.{
  ℕ, ◌<◌, ◌≡◌, ◌≢◌, inl, inr, refl, sym, ◌∙◌, ap, subst, ite, if_neg, Option, none, some, List, [],
  ◌∷◌, Bool, true, false, ltb, arith, retain, Bool-cases, Option-cases,
}
use locache.Base.Str.{Str, str_dec}
use locache.Base.Map.{lookup, delete}
use locache.ConsistentHash.{Config, Ring, add, remove, is_other, get, rounds, label}
use locache.ConsistentHash.Order.{Point}
use locache.ConsistentHash.Sorting.{In, IsSorted-unique, retain-In, retain-IsSorted}
use locache.ConsistentHash.Invariant.{IsRing}
use locache.ConsistentHash.Membership.{add-IsRing, add-nodes, add-config, points_unique}
use locache.ConsistentHash.Lookup.{successor, owner_of, owner_for, get-owner_for}
use locache.ConsistentHash.Owners.Points.{
  some_inj, config_owner_for, is_node, is_node_complete, keep_by, more_nodes-points,
  owner_for-retain, owner_of-In,
}

-- With a member and replicas, every key but the empty one goes to a member.
pub get-nodes :
    (b : ℕ) (key j : Str) (m : Ring)
    → IsRing m
    → lookup j m.nodes ≡ some tt
    → 0 < rounds m.config
    → (o : Str) × ((get (b ∷ key) m ≡ some o) × (lookup o m.nodes ≡ some tt))
get-nodes b key j m v member full =
    (owner_for (b ∷ key) m, (get-owner_for (b ∷ key) m v.sorted, go m.points refl))
  where
    go : (l : List Point) → m.points ≡ l → lookup (owner_for (b ∷ key) m) m.nodes ≡ some tt
    go [] e = absurd (
        subst (In (record { hash = m.config.hash_func (label j 0); node = j; replica = 0 })) e
          ((v.exact _).1 (member, full, refl)))
    go (x ∷ l) e =
        let (p, (h, same)) = owner_of-In (m.config.hash_func (b ∷ key)) x l in
        ap (λ i. lookup i m.nodes) (ap (owner_of (m.config.hash_func (b ∷ key))) e ∙ same)
        ∙ ((v.exact p).0 (subst (In p) (sym e) h)).0

-- Rings of one configuration with the same members give every key the same owner.
pub get_unique :
    (key : Str) (m n : Ring)
    → IsRing m
    → IsRing n
    → m.config ≡ n.config
    → ((j : Str) → lookup j m.nodes ≡ lookup j n.nodes)
    → get key m ≡ get key n
get_unique key m n v w same members =
    get-owner_for key m v.sorted
    ∙ ap some (
        config_owner_for key m n same m.points
        ∙ ap (λ l. owner_for key (record n { points = l })) (points_unique m n v w same members))
    ∙ sym (get-owner_for key n w.sorted)

-- Taking a node away moves no key of another node.
pub get-remove :
    (key node : Str) (m : Ring) (o : Str)
    → IsRing m
    → get key m ≡ some o
    → o ≢ node
    → get key (remove node m).0 ≡ some o
unfolding remove
get-remove key [] m o v e other = e
get-remove key (b ∷ name) m o v e other = elim (Option-cases (lookup (b ∷ name) m.nodes)) [
  | inl missing ↦ rw (missing, remove) e
  | inr (u, old) ↦ rw (old, remove) (stays old)
]
  where
    owner : owner_for key m ≡ o
    owner = some_inj (sym (get-owner_for key m v.sorted) ∙ e)

    is_kept : Str → Bool
    is_kept j = ite (str_dec j (b ∷ name)) false true

    other_kept : is_kept o ≡ true
    other_kept = elim (str_dec o (b ∷ name)) [
      | yes same ↦ absurd (other same)
      | no differs ↦ if_neg _ differs false true
    ]

    left : Ring
    left = record m {
      points = retain (is_other (b ∷ name)) m.points;
      nodes = delete (b ∷ name) m.nodes;
    }

    stays : lookup (b ∷ name) m.nodes ≡ some tt → get key left ≡ some o
    stays old =
        get-owner_for key left (retain-IsSorted (is_other (b ∷ name)) m.points v.sorted)
        ∙ ap some (
            config_owner_for key left m refl (retain (is_other (b ∷ name)) m.points)
            ∙ owner_for-retain is_kept key m (ap is_kept owner ∙ other_kept)
            ∙ owner)

-- A key that does not go to a newcomer stays where it was.
pub get-add :
    (key : Str) (nodes : List Str) (m : Ring) (o : Str)
    → IsRing m
    → get key (add nodes m).0 ≡ some o
    → lookup o m.nodes ≡ some tt
    → get key m ≡ some o
get-add key nodes m o v e member =
    get-owner_for key m v.sorted
    ∙ ap some (sym (ap (λ l. owner_for key (record m { points = l })) cut) ∙ here)
  where
    n : Ring
    n = (add nodes m).0

    w : IsRing n
    w = add-IsRing nodes m v

    cut : retain (keep_by (is_node m)) n.points ≡ m.points
    cut =
        more_nodes-points m n v w (sym (add-config nodes m))
          λ j h. ground (arith, add-nodes nodes m j)

    owner : owner_for key n ≡ o
    owner = some_inj (sym (get-owner_for key n w.sorted) ∙ e)

    here : owner_for key (record m { points = retain (keep_by (is_node m)) n.points }) ≡ o
    here =
        config_owner_for key m n (sym (add-config nodes m)) (retain (keep_by (is_node m)) n.points)
        ∙ owner_for-retain (is_node m) key n (ap (is_node m) owner ∙ is_node_complete m o member)
        ∙ owner
