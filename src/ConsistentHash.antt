-- ===== src/ConsistentHash.antt =====
-- consistenthash/: the hash ring. A method holds the lock throughout. `HashFunc` is a parameter of
-- the configuration; its results are uint32 values, as numbers.
pub mod Order
pub mod Sorting
pub mod Search
pub mod Invariant
pub mod Membership
pub mod Lookup
pub mod Owners
pub mod Initial
mod Tests
use locache.Base.{
  ℕ, zero, suc, ◌+◌, ite, Option, none, some, List, [], ◌∷◌, ◌++◌, map, Bool, true, false, leb, ltb,
  ◌==◌, if◌then◌else◌, length, get_elem?, retain,
}
use locache.Base.Words.{gt64}
use locache.Base.Str.{Str, str_dec}
use locache.Base.Map.{Map, lookup, insert, delete}
use locache.Base.Decimal.{decimal}
use Order.{Point, sort_points, sort_strings}
use Search.{search}

-- consistenthash/config.go.
pub record Config : Type 0 where
  pub replicas : ℕ
  pub hash_func : Str → ℕ

pub record Ring : Type 0 where
  pub config : Config
  pub points : List Point
  pub nodes : Map (Unit {0})

-- The two options of the constructor; a nil HashFunc is `none`.
pub data Setting : Type 0 where
  with_config : ℕ → Option (Str → ℕ) → Setting
  with_replicas : ℕ → Setting

abbrev or_else : Option (Str → ℕ) → (Str → ℕ) → Str → ℕ
or_else none f = f
or_else (some g) f = g

unfoldable pub apply_setting : Setting → Ring → Ring
apply_setting (with_config replicas hash) m = record m {
  config = record {
    replicas = if gt64 replicas 0 then replicas else m.config.replicas;
    hash_func = or_else hash m.config.hash_func;
  };
}
apply_setting (with_replicas replicas) m =
    if gt64 replicas 0 then record m { config = record (m.config) { replicas = replicas } } else m

unfoldable pub apply_settings : List Setting → Ring → Ring
apply_settings [] m = m
apply_settings (o ∷ rest) m = apply_settings rest (apply_setting o m)

-- `DefaultConfig` has 100 replicas and the checksum of hash/crc32, which is the argument `crc`.
unfoldable pub new : (Str → ℕ) → List Setting → Ring
unfolding apply_settings
new crc settings =
    apply_settings settings
      (record { config = record { replicas = 100; hash_func = crc }; points = []; nodes = [] })

pub data Error : Type 0 where
  no_nodes invalid_node : Error
  not_found : Str → Error

-- The text that a virtual node is hashed by, `node#i`.
unfoldable pub label : Str → ℕ → Str
label node i = node ++ (b'#' ∷ decimal i)

-- How often the loop over the replicas runs.
unfoldable pub rounds : Config → ℕ
rounds config = if gt64 config.replicas 0 then config.replicas else 0

-- The points of a node from replica `i` on, for the rounds that are left.
unfoldable pub node_points : (Str → ℕ) → Str → ℕ → ℕ → List Point
node_points hash node i zero = []
node_points hash node i (suc left) =
    record { hash = hash (label node i); node = node; replica = i }
    ∷ node_points hash node (suc i) left

-- One round of the loop of `Add`.
unfoldable pub add_node : Str → Ring × Bool → Ring × Bool
add_node [] (m, changed) = (m, changed)
add_node (b ∷ name) (m, changed) = elim (lookup (b ∷ name) m.nodes) [
  | some _ ↦ (m, changed)
  | none ↦ (
    record m {
      nodes = insert (b ∷ name) tt m.nodes;
      points = m.points ++ node_points m.config.hash_func (b ∷ name) 0 (rounds m.config);
    },
    true,
  )
]

unfoldable pub add_nodes : List Str → Ring × Bool → Ring × Bool
add_nodes [] st = st
add_nodes (node ∷ rest) st = add_nodes rest (add_node node st)

unfoldable pub add : List Str → Ring → Ring × Option Error
add [] m = (m, some no_nodes)
add (node ∷ rest) m =
    let (m', changed) = add_nodes (node ∷ rest) (m, false) in
    (if changed then record m' { points = sort_points m'.points } else m', none)

abbrev pub is_other : Str → Point → Bool
is_other node p = ite (str_dec p.node node) false true

unfoldable pub remove : Str → Ring → Ring × Option Error
remove [] m = (m, some invalid_node)
remove (b ∷ name) m = elim (lookup (b ∷ name) m.nodes) [
  | none ↦ (m, some (not_found (b ∷ name)))
  | some _ ↦ (
    record m { points = retain (is_other (b ∷ name)) m.points; nodes = delete (b ∷ name) m.nodes },
    none,
  )
]

-- The node of the point at an index; an index out of range is a panic.
unfoldable pub node_at : ℕ → List Point → Option Str
node_at i points = elim (get_elem? points i) [ none ↦ none | some p ↦ some p.node ]

-- What `Get` reads off the points for a hash; `none` is a panic.
unfoldable pub pick : ℕ → List Point → Option Str
unfolding node_at
pick h [] = some []
pick h (p ∷ l) =
    let idx = search h (p ∷ l) in node_at (if idx == length (p ∷ l) then 0 else idx) (p ∷ l)

unfoldable pub get : Str → Ring → Option Str
get [] m = some []
get (b ∷ key) m = pick (m.config.hash_func (b ∷ key)) m.points

unfoldable pub members : Ring → List Str
members m = sort_strings (map (λ e. e.0) m.nodes)

unfoldable pub len : Ring → ℕ
len m = length m.nodes
