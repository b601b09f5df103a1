-- ===== src/Group/Remote/Panics.antt =====
-- `Get`, `Set` and `Delete` of group.go where the call of the peer at another node panics.
use locache.Base.{ℕ, ◌≡◌, ◌∙◌, Option, none, some, [], ◌∷◌, false}
use locache.Base.Str.{Str}
use locache.Group.State.{Group, Peers, >>=-some, >>=-none, else_step}
use locache.Group.Local.{is_empty}
use locache.Group.Remote.{
  get, get_loop, remote_get, near_attempt, set, set_loop, remote_set, finish_set, delete_key,
  delete_loop, remote_delete, finish_delete,
}
use locache.Group.Remote.Steady.{other_pick, near_attempt_absent}
use locache.Group.Local.Owner.{still}
use locache.Group.State.{M, Result}

module _ {W : Type 0} (now : ℕ) (getter : Option (Str → M W (Result Str))) (p : Peers W) (k : ℕ)
    (key owner : Str) (epoch : ℕ) (g : Group W) (opened : g.closed ≡ false)
    (named : is_empty owner ≡ false)
    (picked : p.pick_owner (k ∷ key) g ≡ some (g, other_pick owner epoch)) where
  pub get_panics :
      g.near_cache ≡ none
      → p.peer_get owner g.name (k ∷ key) g ≡ none
      → get (still now (some p) getter) (k ∷ key) g ≡ none
  unfolding get get_loop remote_get
  get_panics near panics = else_step _ _ _ g _ opened (
      >>=-some (p.pick_owner (k ∷ key)) _ g g (other_pick owner epoch) picked
      ∙ else_step _ _ _ g _ named (
          >>=-some (near_attempt (still now (some p) getter) p (k ∷ key) (other_pick owner epoch)) _
            g g none
            (near_attempt_absent (still now (some p) getter) p (k ∷ key) (other_pick owner epoch) g
              near)
          ∙ >>=-none (p.peer_get owner g.name (k ∷ key)) _ g panics))

  pub set_panics :
      (b : ℕ) (value : Str)
      → p.peer_set owner g.name (k ∷ key) (b ∷ value) g ≡ none
      → set (still now (some p) getter) (k ∷ key) (b ∷ value) g ≡ none
  unfolding set set_loop remote_set
  set_panics b value panics = else_step _ _ _ g _ opened (
      >>=-none (set_loop (still now (some p) getter) p 4 [] (k ∷ key) (b ∷ value))
        (finish_set (still now (some p) getter) (k ∷ key) (b ∷ value)) g
        (>>=-some (p.pick_owner (k ∷ key)) _ g g (other_pick owner epoch) picked
          ∙ else_step _ _ _ g _ named
              (>>=-none (p.peer_set owner g.name (k ∷ key) (b ∷ value)) _ g panics)))

  pub delete_panics :
      p.peer_delete owner g.name (k ∷ key) g ≡ none
      → delete_key (still now (some p) getter) (k ∷ key) g ≡ none
  unfolding delete_key delete_loop remote_delete
  delete_panics panics = else_step _ _ _ g _ opened (
      >>=-none (delete_loop (still now (some p) getter) p 4 [] (k ∷ key))
        (finish_delete (still now (some p) getter) (k ∷ key)) g
        (>>=-some (p.pick_owner (k ∷ key)) _ g g (other_pick owner epoch) picked
          ∙ else_step _ _ _ g _ named (>>=-none (p.peer_delete owner g.name (k ∷ key)) _ g panics)))
