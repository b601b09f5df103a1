-- ===== src/Group/Remote/Steady/Writes.antt =====
-- `Set` of group.go for a key of another node, while the membership stands still.
use locache.Base.{
  ℕ, suc, ◌≡◌, refl, ◌∙◌, ap, Option, none, some, [], ◌∷◌, Bool, true, false, not, ◌||◌,
}
use locache.Base.Words.{add64}
use locache.Base.Str.{Str}
use locache.Cache.{Cache, ByteView}
use locache.Cache
use locache.Group.State.{Result, ok, Group, M, Peers, >>=-some, else_step}
use locache.Group.Local.{is_empty}
use locache.Group.Local.Owner.{still}
use locache.Group.Remote.{
  set, set_loop, remote_set, finish_set, invalidate_local_copies, invalidate_peer_copies, keep_copy,
}
use locache.Group.Remote.Steady.{
  other_pick, then_step, settle_steady, drop_steady, with_failure, spread_steady, with_failure_like,
}

-- A picker that names another node as the owner of the key, wherever `Same` holds of what lies outside.
module _ {W : Type 0} (now : ℕ) (getter : Option (Str → M W (Result Str))) (p : Peers W)
    (key owner : Str) (epoch : ℕ) (Same : W → Type 0) (named : is_empty owner ≡ false)
    (steady : (h : Group W)
      → Same h.world
      → p.pick_owner key h ≡ some (h, other_pick owner epoch)) where
  set_loop_steady :
      (left : ℕ) (before value : Str) (g : Group W) (w : W)
      → Same g.world
      → p.peer_set owner g.name key value g ≡ some (record g { world = w }, ok tt)
      → Same w
      → set_loop (still now (some p) getter) p (suc left) before key value g
        ≡ some (record g { world = w }, ok (owner, epoch))
  unfolding set_loop remote_set
  set_loop_steady left before value g w same sent same' =
      >>=-some (p.pick_owner key) _ g g (other_pick owner epoch) (steady g same)
      ∙ else_step _ _ _ g _ named (
          >>=-some (p.peer_set owner g.name key value) _ g (record g { world = w }) (ok tt) sent
          ∙ settle_steady now getter p key owner epoch Same named steady left _
              (record g { world = w }) same')

  keep_steady :
      (value : Str) (g : Group W)
      → g.near_cache ≡ none
      → keep_copy (still now (some p) getter) key value owner epoch g ≡ some (g, tt)
  unfolding keep_copy
  keep_steady value g near = then_step _ _ _ g _ (ap (λ c. not (has c) || is_empty owner) near) refl
    where
      has : Option Cache → Bool
      has c = elim c [ none ↦ false | some _ ↦ true ]

  abbrev one_set : Group W → Group W
  one_set g = record g { stats = record (g.stats) { sets = add64 g.stats.sets 1 } }

  -- `Set` sends the value to the owner, and then drops the copies of other nodes and its own.
  pub set_steady :
      (k b : ℕ) (rest value : Str) (g : Group W) (w w' : W) (c : Cache) (removed failed : Bool)
      → key ≡ k ∷ rest
      → g.closed ≡ false
      → g.near_cache ≡ none
      → Same g.world
      → p.peer_set owner g.name key (b ∷ value) g ≡ some (record g { world = w }, ok tt)
      → Same w
      → Cache.delete_key key g.main_cache ≡ some (c, removed)
      → ((h : Group W)
          → h.world ≡ w
          → h.name ≡ g.name
          → p.invalidate h.name key owner h ≡ some (record h { world = w' }, failed))
      → (g' : Group W) × ((set (still now (some p) getter) key (b ∷ value) g ≡ some (g', ok tt))
          × (g'.closed ≡ false)
          × (g'.near_cache ≡ none)
          × (g'.name ≡ g.name)
          × (g'.world ≡ w'))
  unfolding set finish_set
  set_steady k b rest value g w w' c removed failed full opened near same sent same' dropped told =
      (
        with_failure now getter p key owner epoch Same named steady failed last,
        (
          else_step _ _ _ g _ opened (
              else_step _ _ _ g _ (ap is_empty full) (
                >>=-some (set_loop (still now (some p) getter) p 4 [] key (b ∷ value)) _ g
                  (record g { world = w }) (ok (owner, epoch))
                  (set_loop_steady 3 [] (b ∷ value) g w same sent same')
                ∙ >>=-some (invalidate_local_copies (still now (some p) getter) key) _ _ tallied tt
                    (drop_steady now getter p key owner epoch Same named steady
                      (one_set (record g { world = w })) c removed same' near dropped)
                ∙ >>=-some (invalidate_peer_copies (still now (some p) getter) key owner) _ tallied
                    (with_failure now getter p key owner epoch Same named steady failed last) tt
                    (spread_steady now getter p key owner epoch Same named steady tallied w' failed
                      (told tallied refl refl))
                ∙ >>=-some (keep_copy (still now (some p) getter) key (b ∷ value) owner epoch) _ _ _
                    tt
                    (keep_steady (b ∷ value)
                      (with_failure now getter p key owner epoch Same named steady failed last)
                      ((with_failure_like now getter p key owner epoch Same named steady failed
                          last).1
                        ∙ near)))),
          (with_failure_like now getter p key owner epoch Same named steady failed last).0 ∙ opened,
          (with_failure_like now getter p key owner epoch Same named steady failed last).1 ∙ near,
          (with_failure_like now getter p key owner epoch Same named steady failed last).2,
          (with_failure_like now getter p key owner epoch Same named steady failed last).3,
        ),
      )
    where
      tallied : Group W
      tallied = record (one_set (record g { world = w })) { main_cache = c }

      last : Group W
      last = record tallied { world = w' }
