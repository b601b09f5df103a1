-- ===== src/ConsistentHash/Search.antt =====
-- sort.Search, as `Get` of consistenthash/con_hash.go calls it: the first index at which the hash is
-- not below the key's.
use locache.Base.{
  ℕ, zero, suc, ◌+◌, ◌/◌, none, some, List, Bool, true, false, leb, ltb, length, get_elem?,
}
use locache.ConsistentHash.Order.{Point}

-- The test that is passed to the search; an index out of range would be a panic.
unfoldable pub at_least : ℕ → List Point → ℕ → Bool
at_least h points m = elim (get_elem? points m) [ none ↦ true | some p ↦ leb h p.hash ]

-- The loop `for i < j`; the fuel is one more than the points.
unfoldable pub search_loop : ℕ → ℕ → List Point → ℕ → ℕ → ℕ
search_loop zero h points i j = i
search_loop (suc fuel) h points i j = elim (ltb i j) [
  | false ↦ i
  | true ↦ elim (at_least h points ((i + j) / 2)) [
    | false ↦ search_loop fuel h points ((i + j) / 2 + 1) j
    | true ↦ search_loop fuel h points i ((i + j) / 2)
  ]
]

unfoldable pub search : ℕ → List Point → ℕ
unfolding search_loop
search h points = search_loop (suc (length points)) h points 0 (length points)
