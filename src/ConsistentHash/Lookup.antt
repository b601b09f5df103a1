-- ===== src/ConsistentHash/Lookup.antt =====
-- `Get` of consistenthash/con_hash.go against a plain search for the clockwise successor.
use locache.Base.{
  ℕ, zero, suc, ◌+◌, ◌-◌, ◌/◌, ◌≤◌, ◌<◌, ◌≡◌, ◌≢◌, inl, inr, refl, Option, none, some, List, [],
  ◌∷◌, true, false, ltb, leb, if◌then◌else◌, arith, length, get_elem?, Bool-cases, ℕ_discrete,
}
use locache.Base.Str.{Str}
use locache.ConsistentHash.{Ring, get, pick}
use locache.ConsistentHash.Order.{Point, less-hash}
use locache.ConsistentHash.Sorting.{Before, IsSorted}
use locache.ConsistentHash.Search.{at_least, search_loop, search}

-- The number of points before the first one that is not below the hash.
unfoldable pub first : ℕ → List Point → ℕ
first h [] = 0
first h (p ∷ l) = if ltb p.hash h then suc (first h l) else 0

first-le : (h : ℕ) (l : List Point) → first h l ≤ length l
unfolding first
first-le h [] = omega arith
first-le h (p ∷ l) = ground (arith, first-le h l)

at_least_rest :
    (h m : ℕ) (p : Point) (l : List Point)
    → ltb p.hash h ≡ false
    → Before p l
    → at_least h l m ≡ true
unfolding at_least
at_least_rest h m p [] e b = refl
at_least_rest h zero p (x ∷ l) e b = ground (arith, less-hash p x b.0)
at_least_rest h (suc m) p (x ∷ l) e b = at_least_rest h m p l e b.1

-- On sorted points the test of the search passes from one index on.
at_least-first :
    (h m : ℕ) (l : List Point) → IsSorted l → m < length l → at_least h l m ≡ leb (first h l) m
unfolding at_least first
at_least-first h m [] s lt = elim lt [ ]
at_least-first h zero (p ∷ l) s lt = ground arith
at_least-first h (suc m) (p ∷ l) s lt =
    ground (arith, at_least-first h m l s.1, at_least_rest h m p l)

search_loop-first :
    (fuel h i j : ℕ) (l : List Point)
    → IsSorted l
    → i ≤ first h l
    → first h l ≤ j
    → j ≤ length l
    → j - i < fuel
    → search_loop fuel h l i j ≡ first h l
unfolding search_loop
search_loop-first zero h i j l s lo hi top enough = absurd (omega arith)
search_loop-first (suc fuel) h i j l s lo hi top enough = ground (
  arith,
  at_least-first h ((i + j) / 2) l s,
  search_loop-first fuel h ((i + j) / 2 + 1) j l s,
  search_loop-first fuel h i ((i + j) / 2) l s,
)

-- On sorted points the binary search ends on its fuel, at the first point that is not below the hash.
pub search-first : (h : ℕ) (l : List Point) → IsSorted l → search h l ≡ first h l
unfolding search
search-first h l s =
    search_loop-first (suc (length l)) h 0 (length l) l s (omega arith) (first-le h l) (omega arith)
      (omega arith)

-- The first point, in the order of the ring, whose hash is not below the given one.
unfoldable pub successor : ℕ → List Point → Option Point
successor h [] = none
successor h (p ∷ l) = if ltb p.hash h then successor h l else some p

-- The node of the successor, round the end of the ring; no node on an empty ring.
unfoldable pub owner_of : ℕ → List Point → Str
owner_of h points = elim (successor h points) [
  | some p ↦ p.node
  | none ↦ elim points [ [] ↦ [] | p ∷ _ ↦ p.node ]
]

get_elem?-first : (h : ℕ) (l : List Point) → get_elem? l (first h l) ≡ successor h l
unfolding first successor
get_elem?-first h [] = refl
get_elem?-first h (p ∷ l) = ground (arith, get_elem?-first h l)

successor_absent : (h : ℕ) (l : List Point) → first h l ≡ length l → successor h l ≡ none
unfolding first successor
successor_absent h [] e = refl
successor_absent h (p ∷ l) e = ground (arith, successor_absent h l)

successor_present :
    (h : ℕ) (l : List Point) → first h l ≢ length l → (p : Point) × (successor h l ≡ some p)
unfolding first successor
successor_present h [] e = absurd (e refl)
successor_present h (p ∷ l) e = elim (Bool-cases (ltb p.hash h)) [
  | inr here ↦ (p, rw (here, successor))
  | inl later ↦
      let (q, found) = successor_present h l (λ k. e (ground arith)) in
      (q, rw (later, successor) found)
]

abbrev pub owner_for : Str → Ring → Str
owner_for [] m = []
owner_for (b ∷ key) m = owner_of (m.config.hash_func (b ∷ key)) m.points

pick-owner_of : (h : ℕ) (l : List Point) → IsSorted l → pick h l ≡ some (owner_of h l)
unfolding pick owner_of successor
pick-owner_of h [] s = refl
pick-owner_of h (p ∷ l) s = elim (ℕ_discrete (first h (p ∷ l)) (length (p ∷ l))) [
  | yes e ↦ rw (search-first h (p ∷ l) s) (ground (arith, successor_absent h (p ∷ l) e))
  | no ne ↦
      let (q, found) = successor_present h (p ∷ l) ne in
      rw (search-first h (p ∷ l) s) (ground (arith, get_elem?-first h (p ∷ l)))
]

-- `Get` never indexes out of range, and returns the node of the clockwise successor of the key's
-- hash, or the empty name for an empty key or an empty ring.
pub get-owner_for : (key : Str) (m : Ring) → IsSorted m.points → get key m ≡ some (owner_for key m)
unfolding get
get-owner_for [] m s = refl
get-owner_for (b ∷ key) m s = pick-owner_of (m.config.hash_func (b ∷ key)) m.points s
