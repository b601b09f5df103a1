-- ===== src/Group/Remote/Steady/Deletes.antt =====
-- `Delete` of group.go for a key of another node, while the membership stands still.
use locache.Base.{ℕ, suc, ◌≡◌, refl, ◌∙◌, ap, Option, none, some, [], ◌∷◌, Bool, false}
use locache.Base.Words.{add64}
use locache.Base.Str.{Str}
use locache.Cache.{Cache, ByteView}
use locache.Cache
use locache.Group.State.{Result, ok, Group, M, Peers, >>=-some, else_step}
use locache.Group.Local.{is_empty}
use locache.Group.Local.Owner.{still}
use locache.Group.Remote.{
  delete_key, delete_loop, remote_delete, finish_delete, invalidate_local_copies,
  invalidate_peer_copies,
}
use locache.Group.Remote.Steady.{
  other_pick, settle_steady, drop_steady, with_failure, spread_steady, with_failure_like,
}

-- A picker that names another node as the owner of the key, wherever `Same` holds of what lies outside.
module _ {W : Type 0} (now : ℕ) (getter : Option (Str → M W (Result Str))) (p : Peers W)
    (key owner : Str) (epoch : ℕ) (Same : W → Type 0) (named : is_empty owner ≡ false)
    (steady : (h : Group W)
      → Same h.world
      → p.pick_owner key h ≡ some (h, other_pick owner epoch)) where
  delete_loop_steady :
      (left : ℕ) (before : Str) (removed : Bool) (g : Group W) (w : W)
      → Same g.world
      → p.peer_delete owner g.name key g ≡ some (record g { world = w }, ok removed)
      → Same w
      → delete_loop (still now (some p) getter) p (suc left) before key g
        ≡ some (record g { world = w }, ok (owner, epoch))
  unfolding delete_loop remote_delete
  delete_loop_steady left before removed g w same sent same' =
      >>=-some (p.pick_owner key) _ g g (other_pick owner epoch) (steady g same)
      ∙ else_step _ _ _ g _ named (
          >>=-some (p.peer_delete owner g.name key) _ g (record g { world = w }) (ok removed) sent
          ∙ settle_steady now getter p key owner epoch Same named steady left _
              (record g { world = w }) same')

  abbrev one_delete : Group W → Group W
  one_delete g = record g { stats = record (g.stats) { deletes = add64 g.stats.deletes 1 } }

  -- `Delete` asks the owner, and then drops the copies of other nodes and its own.
  pub delete_steady :
      (k : ℕ) (rest : Str) (g : Group W) (w w' : W) (c : Cache) (there removed failed : Bool)
      → key ≡ k ∷ rest
      → g.closed ≡ false
      → g.near_cache ≡ none
      → Same g.world
      → p.peer_delete owner g.name key g ≡ some (record g { world = w }, ok there)
      → Same w
      → Cache.delete_key key g.main_cache ≡ some (c, removed)
      → ((h : Group W)
          → h.world ≡ w
          → h.name ≡ g.name
          → p.invalidate h.name key owner h ≡ some (record h { world = w' }, failed))
      → (g' : Group W) × ((delete_key (still now (some p) getter) key g ≡ some (g', ok tt))
          × (g'.world ≡ w'))
  unfolding delete_key finish_delete
  delete_steady k rest g w w' c there removed failed full opened near same sent same' dropped told =
      (
        with_failure now getter p key owner epoch Same named steady failed last,
        (
          else_step _ _ _ g _ opened (
              else_step _ _ _ g _ (ap is_empty full) (
                >>=-some (delete_loop (still now (some p) getter) p 4 [] key) _ g
                  (record g { world = w }) (ok (owner, epoch))
                  (delete_loop_steady 3 [] there g w same sent same')
                ∙ >>=-some (invalidate_local_copies (still now (some p) getter) key) _ _ tallied tt
                    (drop_steady now getter p key owner epoch Same named steady
                      (one_delete (record g { world = w })) c removed same' near dropped)
                ∙ >>=-some (invalidate_peer_copies (still now (some p) getter) key owner) _ tallied
                    (with_failure now getter p key owner epoch Same named steady failed last) tt
                    (spread_steady now getter p key owner epoch Same named steady tallied w' failed
                      (told tallied refl refl)))),
          (with_failure_like now getter p key owner epoch Same named steady failed last).3,
        ),
      )
    where
      tallied : Group W
      tallied = record (one_delete (record g { world = w })) { main_cache = c }

      last : Group W
      last = record tallied { world = w' }
