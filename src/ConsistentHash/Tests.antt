-- ===== src/ConsistentHash/Tests.antt =====
-- Runs of the ring with a simple hash function, and the theorems at such rings.
use locache.Base.{ℕ, ◌+◌, ◌*◌, ◌%◌, ◌≡◌, refl, ap, some, [], ◌∷◌, arith, ℕ_discrete, retain}
use locache.Base.Words.{gt64}
use locache.Base.Str.{Str, str_dec}
use locache.Base.Map.{lookup, insert, delete}
use locache.Base.Decimal.{decimal}
use locache.ConsistentHash.{
  Ring, with_replicas, apply_setting, apply_settings, new, label, rounds, node_points, add_node,
  add_nodes, add, remove, get, pick, node_at, members, len,
}
use locache.ConsistentHash.Order.{str_lt, less, insert_point, sort_points, sort_strings}
use locache.ConsistentHash.Search.{at_least, search_loop, search}
use locache.ConsistentHash.Invariant.{IsRing}
use locache.ConsistentHash.Initial.{new-IsRing}
use locache.ConsistentHash.Membership
use locache.ConsistentHash.Membership.{add-IsRing}
use locache.ConsistentHash.Lookup
use locache.ConsistentHash.Lookup.{first, successor, owner_of, owner_for}
use locache.ConsistentHash.Owners

-- Everything that a run of the ring computes with.
program : Unit {0}
unfolding str_dec ℕ_discrete lookup insert delete gt64 decimal apply_setting apply_settings new
    label rounds node_points add_node add_nodes add remove get pick node_at members len str_lt less
    insert_point sort_points sort_strings at_least search_loop search retain
program = tt

abbrev sum : Str → ℕ
sum [] = 0
sum (b ∷ s) = (b * 7 + sum s * 31) % 1000

abbrev key_a : Str
key_a = 97 ∷ []

abbrev node_x : Str
node_x = 120 ∷ []

abbrev node_y : Str
node_y = 121 ∷ []

abbrev empty_ring : Ring
empty_ring = new sum (with_replicas 2 ∷ [])

abbrev ring : Ring
ring = (add (node_x ∷ node_y ∷ []) empty_ring).0

abbrev ring-IsRing : IsRing ring
ring-IsRing = add-IsRing (node_x ∷ node_y ∷ []) empty_ring (new-IsRing sum (with_replicas 2 ∷ []))

abbrev first_byte : Str → ℕ
first_byte [] = 0
first_byte (b ∷ s) = b

-- A key whose hash falls on the second node.
abbrev key_b : Str
key_b = 9 ∷ []

ring_runs : (get key_a ring ≡ some node_x) × (get key_b ring ≡ some node_y) × (len ring ≡ 2)
unfolding program
ring_runs = (refl, refl, refl)

-- The same members, added in two calls and in the other order.
abbrev other_ring : Ring
other_ring = (add (node_x ∷ []) (add (node_y ∷ []) empty_ring).0).0

abbrev other_ring-IsRing : IsRing other_ring
other_ring-IsRing =
    add-IsRing (node_x ∷ []) _
      (add-IsRing (node_y ∷ []) empty_ring (new-IsRing sum (with_replicas 2 ∷ [])))

abbrev node_z : Str
node_z = 122 ∷ []

add-IsRing_example : IsRing (add (node_z ∷ [] ∷ node_x ∷ []) ring).0
add-IsRing_example = Membership.add-IsRing (node_z ∷ [] ∷ node_x ∷ []) ring ring-IsRing

remove-IsRing_example : IsRing (remove node_x ring).0
remove-IsRing_example = Membership.remove-IsRing node_x ring ring-IsRing

search-first_example : search 60 ring.points ≡ 1
unfolding program first
search-first_example = Lookup.search-first 60 ring.points ring-IsRing.sorted

get-nodes_example : (o : Str) × ((get key_a ring ≡ some o) × (lookup o ring.nodes ≡ some tt))
unfolding program
get-nodes_example = Owners.get-nodes 97 [] node_y ring ring-IsRing refl (omega arith)

get_unique_example : get key_b ring ≡ get key_b other_ring
unfolding program
get_unique_example =
    Owners.get_unique key_b ring other_ring ring-IsRing other_ring-IsRing refl (λ j. ground arith)

get-remove_example : get key_b (remove node_x ring).0 ≡ some node_y
unfolding program
get-remove_example =
    Owners.get-remove key_b node_x ring node_y ring-IsRing refl
      (λ e. omega (arith, ap first_byte e))

get-add_example : get key_b ring ≡ some node_y
unfolding program
get-add_example = Owners.get-add key_b (node_z ∷ []) ring node_y ring-IsRing refl refl
