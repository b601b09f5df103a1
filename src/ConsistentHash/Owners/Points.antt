-- ===== src/ConsistentHash/Owners/Points.antt =====
-- The owner of a hash in consistenthash/con_hash.go, among some of the points.
use locache.Base.{
  ℕ, ◌≡◌, inl, inr, refl, sym, ◌∙◌, ap, Option, none, some, List, [], ◌∷◌, Bool, true, false, ltb,
  arith, retain, Bool-cases, Option-cases,
}
use locache.Base.Str.{Str}
use locache.Base.Map.{lookup}
use locache.ConsistentHash.{Config, Ring}
use locache.ConsistentHash.Order.{Point}
use locache.ConsistentHash.Sorting.{In, IsSorted-unique, retain-In, retain-IsSorted}
use locache.ConsistentHash.Invariant.{IsRing}
use locache.ConsistentHash.Lookup.{successor, owner_of, owner_for}

pub some_inj {ℓ} : {A : Type ℓ} {a b : A} → some a ≡ some b → a ≡ b
some_inj e = cc

abbrev pub keep_by : (Str → Bool) → Point → Bool
keep_by keep p = keep p.node

abbrev pub is_node : Ring → Str → Bool
is_node m j = elim (lookup j m.nodes) [ some _ ↦ true | none ↦ false ]

is_node_sound : (m : Ring) (j : Str) → is_node m j ≡ true → lookup j m.nodes ≡ some tt
is_node_sound m j h = elim (Option-cases (lookup j m.nodes)) [
  | inl e ↦ ground arith
  | inr (u, e) ↦ e
]

pub is_node_complete : (m : Ring) (j : Str) → lookup j m.nodes ≡ some tt → is_node m j ≡ true
is_node_complete m j h = ground arith

abbrev owner_at : Option Point → List Point → Str
owner_at (some p) points = p.node
owner_at none [] = []
owner_at none (p ∷ _) = p.node

owner_of-owner_at : (h : ℕ) (l : List Point) → owner_of h l ≡ owner_at (successor h l) l
unfolding owner_of successor
owner_of-owner_at h [] = refl
owner_of-owner_at h (x ∷ l) = ground arith

successor-retain-some :
    (keep : Point → Bool) (h : ℕ) (l : List Point) (p : Point)
    → successor h l ≡ some p
    → keep p ≡ true
    → successor h (retain keep l) ≡ some p
unfolding successor retain
successor-retain-some keep h [] p e k = cc
successor-retain-some keep h (x ∷ l) p e k = ground (arith, successor-retain-some keep h l p)

successor-retain-none :
    (keep : Point → Bool) (h : ℕ) (l : List Point)
    → successor h l ≡ none
    → successor h (retain keep l) ≡ none
unfolding successor retain
successor-retain-none keep h [] e = e
successor-retain-none keep h (x ∷ l) e = ground (arith, successor-retain-none keep h l)

retain-head :
    (keep : Point → Bool) (x : Point) (l : List Point)
    → keep x ≡ true
    → retain keep (x ∷ l) ≡ x ∷ retain keep l
unfolding retain
retain-head keep x l k = rw (k, retain) refl

-- Without the points of nodes that own nothing of it, a key stays where it is.
owner_of-retain :
    (keep : Str → Bool) (h : ℕ) (l : List Point)
    → keep (owner_of h l) ≡ true
    → owner_of h (retain (keep_by keep) l) ≡ owner_of h l
unfolding retain
owner_of-retain keep h [] k = refl
owner_of-retain keep h (x ∷ l) k = elim (Option-cases (successor h (x ∷ l))) [
  | inr (p, e) ↦
      owner_of-owner_at h _
      ∙ ap (λ s. owner_at s (retain (keep_by keep) (x ∷ l)))
          (successor-retain-some (keep_by keep) h (x ∷ l) p e
            (ap keep (sym (whole ∙ ap (λ s. owner_at s (x ∷ l)) e)) ∙ k))
      ∙ sym (whole ∙ ap (λ s. owner_at s (x ∷ l)) e)
  | inl e ↦
      owner_of-owner_at h _
      ∙ ap (λ s. owner_at s (retain (keep_by keep) (x ∷ l)))
          (successor-retain-none (keep_by keep) h (x ∷ l) e)
      ∙ ap (owner_at none) (
          retain-head (keep_by keep) x l
            (ap keep (sym (whole ∙ ap (λ s. owner_at s (x ∷ l)) e)) ∙ k))
      ∙ sym (whole ∙ ap (λ s. owner_at s (x ∷ l)) e)
]
  where
    whole : owner_of h (x ∷ l) ≡ owner_at (successor h (x ∷ l)) (x ∷ l)
    whole = owner_of-owner_at h (x ∷ l)

pub owner_for-retain :
    (keep : Str → Bool) (key : Str) (m : Ring)
    → keep (owner_for key m) ≡ true
    → owner_for key (record m { points = retain (keep_by keep) m.points }) ≡ owner_for key m
owner_for-retain keep [] m k = refl
owner_for-retain keep (b ∷ key) m k = owner_of-retain keep (m.config.hash_func (b ∷ key)) m.points k

pub more_nodes-points :
    (m n : Ring)
    → IsRing m
    → IsRing n
    → m.config ≡ n.config
    → ((j : Str) → lookup j m.nodes ≡ some tt → lookup j n.nodes ≡ some tt)
    → retain (keep_by (is_node m)) n.points ≡ m.points
more_nodes-points m n v w same more =
    IsSorted-unique _ _ (retain-IsSorted (keep_by (is_node m)) n.points w.sorted) v.sorted λ p. (
      (λ h.
          let k = (retain-In (keep_by (is_node m)) p n.points).0 h in
          (v.exact p).1 (
            is_node_sound m p.node k.1,
            ground (arith, ((w.exact p).0 k.0).1),
            ground (arith, ((w.exact p).0 k.0).2),
          )),
      (λ h.
          let k = (v.exact p).0 h in
          (retain-In (keep_by (is_node m)) p n.points).1 (
            (w.exact p).1 (more p.node k.0, ground (arith, k.1), ground (arith, k.2)),
            is_node_complete m p.node k.0,
          )),
    )

pub config_owner_for :
    (key : Str) (m n : Ring)
    → m.config ≡ n.config
    → (l : List Point)
    → owner_for key (record m { points = l }) ≡ owner_for key (record n { points = l })
config_owner_for [] m n e l = refl
config_owner_for (b ∷ key) m n e l = ap (λ (c : Config). owner_of (c.hash_func (b ∷ key)) l) e

successor-In : (h : ℕ) (l : List Point) (p : Point) → successor h l ≡ some p → In p l
unfolding successor
successor-In h [] p e = cc
successor-In h (x ∷ l) p e = elim (Bool-cases (ltb x.hash h)) [
  | inl later ↦ inr (successor-In h l p (rw later at e))
  | inr here ↦ inl (sym (some_inj (rw here at e)))
]

pub owner_of-In :
    (h : ℕ) (x : Point) (l : List Point)
    → (p : Point) × (In p (x ∷ l) × (owner_of h (x ∷ l) ≡ p.node))
owner_of-In h x l = elim (Option-cases (successor h (x ∷ l))) [
  | inl e ↦ (x, (inl refl, owner_of-owner_at h (x ∷ l) ∙ ap (λ s. owner_at s (x ∷ l)) e))
  | inr (p, e) ↦ (
    p,
    (successor-In h (x ∷ l) p e, owner_of-owner_at h (x ∷ l) ∙ ap (λ s. owner_at s (x ∷ l)) e),
  )
]
