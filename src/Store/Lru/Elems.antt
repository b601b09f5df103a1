-- ===== src/Store/Lru/Elems.antt =====
-- What store/lru.go uses of container/list: elements with an identity, in order, front first.
pub mod Laws
use locache.Base.{ℕ, ◌<◌, ◌≡◌, ite, Option, none, some, List, [], ◌∷◌, ◌++◌, ℕ_discrete}
use locache.Base.Str.{Str, str_dec}

-- A `*list.Element`, by its number, and the `lruEntry` that it holds.
pub record Elem (V : Type 0) : Type 0 where
  pub ref : ℕ
  pub key : Str
  pub value : V

module _ {V : Type 0} where
  unfoldable pub find_ref : ℕ → List (Elem V) → Option (Elem V)
  find_ref r [] = none
  find_ref r (e ∷ l) = ite (ℕ_discrete e.ref r) (some e) (find_ref r l)

  unfoldable pub remove_ref : ℕ → List (Elem V) → List (Elem V)
  remove_ref r [] = []
  remove_ref r (e ∷ l) = ite (ℕ_discrete e.ref r) l (e ∷ remove_ref r l)

  unfoldable pub set_value : ℕ → V → List (Elem V) → List (Elem V)
  set_value r v [] = []
  set_value r v (e ∷ l) =
      ite (ℕ_discrete e.ref r) (record e { value = v } ∷ l) (e ∷ set_value r v l)

  unfoldable pub move_to_back : ℕ → List (Elem V) → List (Elem V)
  move_to_back r l = elim (find_ref r l) [ none ↦ l | some e ↦ remove_ref r l ++ e ∷ [] ]

  -- The first element with a key: what `items` is to agree with.
  unfoldable pub find_key : Str → List (Elem V) → Option (Elem V)
  find_key k [] = none
  find_key k (e ∷ l) = ite (str_dec e.key k) (some e) (find_key k l)

  -- No two elements share an identity or a key, and the identities are below `n`.
  abbrev pub Distinct : ℕ → List (Elem V) → Type 0
  Distinct n [] = Unit {0}
  Distinct n (e ∷ l) =
      (e.ref < n) × (find_ref e.ref l ≡ none) × (find_key e.key l ≡ none) × Distinct n l
