-- ===== src/Peers/Members.antt =====
-- Sets of members as maps: their comparison in peers.go, and their sorted keys.
use locache.Base.{
  suc, ◌≡◌, inl, inr, refl, sym, ◌∙◌, ap, none, some, List, [], ◌∷◌, map, true, not, ite, arith,
  length, All, Bool-cases, Option-cases,
}
use locache.Base.Str.{Str, str_dec}
use locache.Base.Map.{Map, IsMap, lookup, delete, lookup-delete, delete-IsMap}
use locache.ConsistentHash.Order.{str_lt, insert_string, sort_strings}
use locache.ConsistentHash.Membership.{is_listed}
use locache.Peers.{is_absent, sorted_keys}
use locache.Peers.Changes.{all_members, same_members}

abbrev pub Members : Type 0
Members = Map (Unit {0})

length-delete_absent : (k : Str) (m : Members) → lookup k m ≡ none → length (delete k m) ≡ length m
unfolding lookup delete
length-delete_absent k [] h = refl
length-delete_absent k ((j, u) ∷ m) h = ground (arith, length-delete_absent k m)

length-delete :
    (k : Str) (m : Members) → IsMap m → lookup k m ≡ some tt → suc (length (delete k m)) ≡ length m
unfolding lookup delete
length-delete k [] v h = cc
length-delete k ((j, u) ∷ m) v h = ground (arith, length-delete k m v.1, length-delete_absent k m)

all_members-lookup :
    (a b : Members) (j : Str) → all_members a b ≡ true → lookup j a ≡ some tt → lookup j b ≡ some tt
unfolding all_members lookup
all_members-lookup [] b j h k = cc
all_members-lookup ((i, u) ∷ a) b j h k = elim (str_dec i j) [
  | yes e ↦ ap (λ x. lookup x b) (sym e) ∙ there
  | no ne ↦ all_members-lookup a b j (ground arith) (ground arith)
]
  where
    there : lookup i b ≡ some tt
    there = elim (Option-cases (lookup i b)) [ inl e ↦ absurd (ground arith) | inr (v, e) ↦ e ]

all_members-delete :
    (k : Str) (a b : Members)
    → lookup k a ≡ none
    → all_members a b ≡ true
    → all_members a (delete k b) ≡ true
unfolding all_members lookup
all_members-delete k [] b h e = refl
all_members-delete k ((j, u) ∷ a) b h e =
    ground (arith, all_members-delete k a b, lookup-delete j k b)

-- Two sets of one size are equal when the first is in the second.
all_members-eq :
    (a b : Members)
    → IsMap a
    → IsMap b
    → length a ≡ length b
    → all_members a b ≡ true
    → (j : Str) → lookup j a ≡ lookup j b
unfolding lookup all_members
all_members-eq [] [] va vb n h j = refl
all_members-eq [] ((k, u) ∷ b) va vb n h j = absurd (omega (arith, n))
all_members-eq ((k, u) ∷ a) b va vb n h j = ground (
  arith,
  all_members-eq a (delete k b) va.1 (delete-IsMap k b vb) shorter
      (all_members-delete k a b va.0 rest) j,
  lookup-delete j k b,
  there,
)
  where
    there : lookup k b ≡ some tt
    there = all_members-lookup ((k, u) ∷ a) b k h (ground arith)

    rest : all_members a b ≡ true
    rest = ground arith

    shorter : length a ≡ length (delete k b)
    shorter = omega (arith, length-delete k b vb there)

All-mono : {P Q : Str → Type 0} (l : List Str) → ((a : Str) → P a → Q a) → All P l → All Q l
All-mono [] f h = tt
All-mono (a ∷ l) f h = (f a h.0, All-mono l f h.1)

keys-All : (m : Members) → All (λ a. lookup a m ≡ some tt) (map (λ e. e.0) m)
unfolding lookup
keys-All [] = tt
keys-All ((k, u) ∷ m) =
    (ground arith, All-mono (map (λ e. e.0) m) (λ a h. ground arith) (keys-All m))

insert_string-All :
    (P : Str → Type 0) (s : Str) (l : List Str) → P s → All P l → All P (insert_string s l)
unfolding insert_string
insert_string-All P s [] h k = (h, tt)
insert_string-All P s (x ∷ l) h k = elim (Bool-cases (str_lt s x)) [
  | inl first ↦ rw (first, insert_string) (h, k)
  | inr later ↦ rw (later, insert_string) (k.0, insert_string-All P s l h k.1)
]

sort_strings-All : (P : Str → Type 0) (l : List Str) → All P l → All P (sort_strings l)
unfolding sort_strings
sort_strings-All P [] h = tt
sort_strings-All P (s ∷ l) h = insert_string-All P s (sort_strings l) h.0 (sort_strings-All P l h.1)

-- The sorted keys are members.
pub sorted_keys-All : (m : Members) → All (λ a. lookup a m ≡ some tt) (sorted_keys m)
unfolding sorted_keys
sorted_keys-All m = sort_strings-All (λ a. lookup a m ≡ some tt) (map (λ e. e.0) m) (keys-All m)

is_listed-insert_string :
    (j s : Str) (l : List Str) → is_listed j (insert_string s l) ≡ is_listed j (s ∷ l)
unfolding insert_string
is_listed-insert_string j s [] = refl
is_listed-insert_string j [] ([] ∷ l) = ground (arith, is_listed-insert_string j [] l)
is_listed-insert_string j [] ((c ∷ x) ∷ l) = ground (arith, is_listed-insert_string j [] l)
is_listed-insert_string j (b ∷ s) ([] ∷ l) = ground (arith, is_listed-insert_string j (b ∷ s) l)
is_listed-insert_string j (b ∷ s) ((c ∷ x) ∷ l) =
    ground (arith, is_listed-insert_string j (b ∷ s) l)

is_listed-sort_strings : (j : Str) (l : List Str) → is_listed j (sort_strings l) ≡ is_listed j l
unfolding sort_strings
is_listed-sort_strings j [] = refl
is_listed-sort_strings j ([] ∷ l) =
    is_listed-insert_string j [] (sort_strings l) ∙ is_listed-sort_strings j l
is_listed-sort_strings j ((b ∷ s) ∷ l) =
    is_listed-insert_string j (b ∷ s) (sort_strings l)
    ∙ ap (ite (str_dec (b ∷ s) j) true) (is_listed-sort_strings j l)

is_listed-keys :
    (m : Members) (j : Str)
    → lookup [] m ≡ none
    → is_listed j (map (λ e. e.0) m) ≡ not (is_absent (lookup j m))
unfolding lookup
is_listed-keys [] j h = refl
is_listed-keys (([], u) ∷ m) j h = absurd (ground arith)
is_listed-keys ((b ∷ k, u) ∷ m) j h = ground (arith, is_listed-keys m j)

-- What `Add` takes of the sorted keys are the members.
pub is_listed-sorted_keys :
    (m : Members) (j : Str)
    → lookup [] m ≡ none
    → is_listed j (sorted_keys m) ≡ not (is_absent (lookup j m))
unfolding sorted_keys
is_listed-sorted_keys m j h = is_listed-sort_strings j (map (λ e. e.0) m) ∙ is_listed-keys m j h

-- Maps that `sameMembers` takes for the same have the same keys.
pub same_members_lem :
    (a b : Members)
    → IsMap a
    → IsMap b
    → same_members a b ≡ true
    → (j : Str) → lookup j a ≡ lookup j b
unfolding same_members
same_members_lem a b va vb h = all_members-eq a b va vb (ground arith) (ground arith)
