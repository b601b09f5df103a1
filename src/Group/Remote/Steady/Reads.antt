-- ===== src/Group/Remote/Steady/Reads.antt =====
-- `Get` of group.go for a key of another node, while the membership stands still.
use locache.Base.{ℕ, ◌≡◌, refl, ◌∙◌, ap, Option, none, some, ◌∷◌, false, not, ◌||◌, arith}
use locache.Base.Words.{add64}
use locache.Base.Str.{Str}
use locache.Cache.{ByteView}
use locache.Group.State.{
  err, Error, call_error, is_retry, Result, ok, Group, M, Peers, >>=-some, else_step,
}
use locache.Group.Local.{is_empty, near_key}
use locache.Group.Local.Owner.{still}
use locache.Group.Remote.{get, get_loop, remote_get, near_attempt, near_add}
use locache.Group.Remote.Steady.{other_pick, stable_self, near_attempt_absent}

abbrev pub peer_hit : {W : Type 0} → Group W → Group W
peer_hit h = record h { stats = record (h.stats) { peer_hits = add64 h.stats.peer_hits 1 } }

-- A picker that names another node as the owner of the key, wherever `Same` holds of what lies outside.
module _ {W : Type 0} (now : ℕ) (getter : Option (Str → M W (Result Str))) (p : Peers W)
    (key owner : Str) (epoch : ℕ) (Same : W → Type 0) (named : is_empty owner ≡ false)
    (steady : (h : Group W)
      → Same h.world
      → p.pick_owner key h ≡ some (h, other_pick owner epoch)) where
  near_add_steady :
      (near : Str) (view : ByteView) (g : Group W)
      → g.near_cache ≡ none
      → near_add (still now (some p) getter) near view g ≡ some (g, tt)
  unfolding near_add
  near_add_steady near view g e = ground (arith, e)

  -- An attempt that finds no copy asks the owner, and may keep what it answers.
  pub get_asks :
      (k : ℕ) (rest bytes : Str) (g g1 g2 : Group W) (w : W)
      → key ≡ k ∷ rest
      → g.closed ≡ false
      → Same g.world
      → near_attempt (still now (some p) getter) p key (other_pick owner epoch) g ≡ some (g1, none)
      → p.peer_get owner g1.name key g1 ≡ some (record g1 { world = w }, ok bytes)
      → Same w
      → near_add
          (still now (some p) getter)
          (near_key epoch key)
          (record { b = bytes })
          (peer_hit (record g1 { world = w }))
        ≡ some (g2, tt)
      → get (still now (some p) getter) key g ≡ some (g2, ok (record { b = bytes }))
  unfolding get get_loop remote_get
  get_asks k rest bytes g g1 g2 w full opened same missed asked same' kept =
      else_step _ _ _ g _ opened (
        else_step _ _ _ g _ (ap is_empty full) (
          >>=-some (p.pick_owner key) _ g g (other_pick owner epoch) (steady g same)
          ∙ else_step _ _ _ g _ named (
              >>=-some (near_attempt (still now (some p) getter) p key (other_pick owner epoch)) _ g
                g1 none missed
              ∙ >>=-some (p.peer_get owner g1.name key) _ g1 (record g1 { world = w }) (ok bytes)
                  asked
              ∙ >>=-some (p.pick_owner key) _ _ _ (other_pick owner epoch)
                  (steady (record g1 { world = w }) same')
              ∙ else_step _ _ _ (record g1 { world = w }) _
                  (ap (λ b. not b || false) (stable_self owner epoch))
                  (>>=-some
                    (near_add (still now (some p) getter) (near_key epoch key)
                      (record { b = bytes }))
                    _ _ g2 tt kept))))

  -- `Get` asks the owner, and answers what it answers.
  pub get_steady :
      (k : ℕ) (rest bytes : Str) (g : Group W) (w : W)
      → key ≡ k ∷ rest
      → g.closed ≡ false
      → g.near_cache ≡ none
      → Same g.world
      → p.peer_get owner g.name key g ≡ some (record g { world = w }, ok bytes)
      → Same w
      → (g' : Group W) × ((get (still now (some p) getter) key g
            ≡ some (g', ok (record { b = bytes })))
          × (g'.world ≡ w))
  get_steady k rest bytes g w full opened near same asked same' = (
    peer_hit (record g { world = w }),
    (
      get_asks k rest bytes g g _ w full opened same
          (near_attempt_absent (still now (some p) getter) p key (other_pick owner epoch) g near)
          asked same'
          (near_add_steady (near_key epoch key) (record { b = bytes })
            (peer_hit (record g { world = w })) near),
      refl,
    ),
  )

  -- `Get` hands on an error of the owner that does not tell of a change.
  pub get_refused :
      (k : ℕ) (rest : Str) (e : Error) (g : Group W) (w : W)
      → key ≡ k ∷ rest
      → g.closed ≡ false
      → g.near_cache ≡ none
      → Same g.world
      → p.peer_get owner g.name key g ≡ some (record g { world = w }, err e)
      → is_retry e ≡ false
      → (g' : Group W) × (get (still now (some p) getter) key g
          ≡ some (g', err (call_error e owner)))
  unfolding get get_loop remote_get
  get_refused k rest e g w full opened near same asked final = (
    missed (record g { world = w }),
    else_step _ _ _ g _ opened (
        else_step _ _ _ g _ (ap is_empty full) (
          >>=-some (p.pick_owner key) _ g g (other_pick owner epoch) (steady g same)
          ∙ else_step _ _ _ g _ named (
              >>=-some (near_attempt (still now (some p) getter) p key (other_pick owner epoch)) _ g
                g none
                (near_attempt_absent (still now (some p) getter) p key (other_pick owner epoch) g
                  near)
              ∙ >>=-some (p.peer_get owner g.name key) _ g (record g { world = w }) (err e) asked
              ∙ else_step _ _ _ (missed (record g { world = w })) _ final refl))),
  )
    where
      missed : Group W → Group W
      missed h = record h { stats = record (h.stats) { peer_misses = add64 h.stats.peer_misses 1 } }
