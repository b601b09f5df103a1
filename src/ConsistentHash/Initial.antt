-- ===== src/ConsistentHash/Initial.antt =====
-- `New` of consistenthash/con_hash.go.
use locache.Base.{ℕ, ◌≡◌, refl, some, List, [], ◌∷◌, Bool-cases, inl, inr}
use locache.Base.Words.{gt64}
use locache.Base.Str.{Str}
use locache.Base.Map.{lookup}
use locache.ConsistentHash.{
  Ring, Setting, apply_setting, apply_settings, new, with_config, with_replicas,
}
use locache.ConsistentHash.Invariant.{IsRing}

abbrev IsUnused : Ring → Type 0
IsUnused m = (m.points ≡ []) × (m.nodes ≡ [])

apply_setting-IsUnused : (o : Setting) (m : Ring) → IsUnused m → IsUnused (apply_setting o m)
unfolding apply_setting
apply_setting-IsUnused (with_config replicas hash) m h = h
apply_setting-IsUnused (with_replicas replicas) m h = elim (Bool-cases (gt64 replicas 0)) [
  | inl e ↦ rw (e, apply_setting) h
  | inr e ↦ rw (e, apply_setting) h
]

apply_settings-IsUnused :
    (settings : List Setting) (m : Ring) → IsUnused m → IsUnused (apply_settings settings m)
unfolding apply_settings
apply_settings-IsUnused [] m h = h
apply_settings-IsUnused (o ∷ rest) m h =
    apply_settings-IsUnused rest (apply_setting o m) (apply_setting-IsUnused o m h)

no_member : (j : Str) → lookup {V = Unit {0}} j [] ≡ some tt → ⊥
unfolding lookup
no_member j e = cc

unused-IsRing : (m : Ring) → IsUnused m → IsRing m
unfolding lookup
unused-IsRing m h = record {
  exact = λ p. ((λ k. absurd (rw h.0 at k)), (λ k. absurd (no_member p.node (rw h.1 at k.0))));
  sorted = rw h.0 tt;
  named = rw h.1 refl;
}

-- The ring that `New` gives is exact and sorted, whatever the options.
pub new-IsRing : (crc : Str → ℕ) (settings : List Setting) → IsRing (new crc settings)
unfolding new
new-IsRing crc settings = unused-IsRing _ (apply_settings-IsUnused settings _ (refl, refl))
