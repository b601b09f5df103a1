-- ===== src/ConsistentHash/Order.antt =====
-- The points of consistenthash/con_hash.go, their order, and the sorts of package sort, written as
-- sorts by insertion.
use locache.Base.{
  ℕ, ◌≡◌, refl, ite, List, [], ◌∷◌, Bool, true, false, ltb, ◌==◌, if◌then◌else◌, arith,
}
use locache.Base.Str.{Str, str_dec}

pub record Point : Type 0 where
  pub hash : ℕ
  pub node : Str
  pub replica : ℕ

-- `<` on Go strings: the order of their bytes.
unfoldable pub str_lt : Str → Str → Bool
str_lt [] [] = false
str_lt [] (y ∷ ys) = true
str_lt (x ∷ xs) [] = false
str_lt (x ∷ xs) (y ∷ ys) = if x == y then str_lt xs ys else ltb x y

unfoldable pub less : Point → Point → Bool
less p q =
    if p.hash == q.hash
    then ite (str_dec p.node q.node) (ltb p.replica q.replica) (str_lt p.node q.node)
    else ltb p.hash q.hash

unfoldable pub insert_point : Point → List Point → List Point
insert_point p [] = p ∷ []
insert_point p (x ∷ l) = if less p x then p ∷ x ∷ l else x ∷ insert_point p l

unfoldable pub sort_points : List Point → List Point
sort_points [] = []
sort_points (p ∷ l) = insert_point p (sort_points l)

unfoldable pub insert_string : Str → List Str → List Str
insert_string s [] = s ∷ []
insert_string s (x ∷ l) = if str_lt s x then s ∷ x ∷ l else x ∷ insert_string s l

unfoldable pub sort_strings : List Str → List Str
unfolding insert_string
sort_strings [] = []
sort_strings (s ∷ l) = insert_string s (sort_strings l)

str_lt_trans : (a b c : Str) → str_lt a b ≡ true → str_lt b c ≡ true → str_lt a c ≡ true
unfolding str_lt
str_lt_trans [] [] c h k = cc
str_lt_trans [] (y ∷ b) [] h k = cc
str_lt_trans [] (y ∷ b) (z ∷ c) h k = refl
str_lt_trans (x ∷ a) [] c h k = cc
str_lt_trans (x ∷ a) (y ∷ b) [] h k = cc
str_lt_trans (x ∷ a) (y ∷ b) (z ∷ c) h k = ground (arith, str_lt_trans a b c)

str_lt_irrefl : (a : Str) → str_lt a a ≡ false
unfolding str_lt
str_lt_irrefl [] = refl
str_lt_irrefl (x ∷ a) = ground (arith, str_lt_irrefl a)

str_lt_total : (a b : Str) → str_lt a b ≡ false → str_lt b a ≡ false → a ≡ b
unfolding str_lt
str_lt_total [] [] h k = refl
str_lt_total [] (y ∷ b) h k = cc
str_lt_total (x ∷ a) [] h k = cc
str_lt_total (x ∷ a) (y ∷ b) h k = ground (arith, str_lt_total a b)

pub less_trans : (p q r : Point) → less p q ≡ true → less q r ≡ true → less p r ≡ true
unfolding less
less_trans p q r h k = ground (
  arith,
  str_lt_trans p.node q.node r.node,
  str_lt_irrefl p.node,
  str_lt_trans p.node q.node p.node,
)

pub less_irrefl : (p : Point) → less p p ≡ false
unfolding less
less_irrefl p = ground arith

pub less_total : (p q : Point) → less p q ≡ false → less q p ≡ false → p ≡ q
unfolding less
less_total p q h k = ground (arith, str_lt_total p.node q.node)

pub less-hash : (p q : Point) → less p q ≡ true → ltb q.hash p.hash ≡ false
unfolding less
less-hash p q h = ground arith
