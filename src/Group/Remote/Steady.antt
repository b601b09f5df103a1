-- ===== src/Group/Remote/Steady.antt =====
-- A picker that stands still, and what `Set` and `Delete` of group.go do with it after their request.
pub mod Writes
pub mod Deletes
pub mod Reads
pub mod Near
pub mod Dropped
use locache.Base.{
  ℕ, suc, ◌≡◌, refl, ◌∙◌, ap, Option, none, some, [], ◌∷◌, Bool, true, false, not, ◌&&◌, ◌||◌, ◌==◌,
  ite, if_pos, if◌then◌else◌, arith,
}
use locache.Base.Words.{add64}
use locache.Base.Str.{Str, str_dec}
use locache.Cache.{Cache, ByteView}
use locache.Cache
use locache.Group.State.{
  err, Error, call_error, is_retry, Result, ok, Group, M, pure, count, Pick, Peers, Env, >>=-some,
  else_step,
}
use locache.Group.Local.{is_empty, near_key, invalidate_near_key}
use locache.Group.Local.Owner.{still, near_absent}
use locache.Group.Remote.{
  delete_key, delete_loop, remote_delete, finish_delete, is_stable, get, get_loop, remote_get,
  near_attempt, near_add, set, set_loop, remote_set, settle, finish_set, invalidate_local_copies,
  invalidate_peer_copies, keep_copy,
}

-- A pick of a peer at another node.
abbrev pub other_pick : Str → ℕ → Pick
other_pick owner epoch = record {
  owner = owner;
  has_peer = true;
  is_self = false;
  epoch = epoch;
  ok = true;
}

same_text : (s : Str) → ite (str_dec s s) true false ≡ true
same_text s = if_pos (str_dec s s) refl true false

same_number : (n : ℕ) → (n == n) ≡ true
same_number n = ground arith

pub stable_self :
    (owner : Str) (epoch : ℕ) → is_stable (other_pick owner epoch) (other_pick owner epoch) ≡ true
stable_self owner epoch = ap (λ b. b && (epoch == epoch)) (same_text owner) ∙ same_number epoch

-- A test that holds.
pub then_step :
    {W A : Type 0} (b : Bool) (x y : M W A) (g : Group W) (r : Option (Group W × A))
    → b ≡ true
    → x g ≡ r
    → (if b then x else y) g ≡ r
then_step b x y g r e k = ap (λ c. (if c then x else y) g) e ∙ k

-- Without a near cache there is nothing to find.
pub near_attempt_absent :
    {W : Type 0} (env : Env W) (p : Peers W) (key : Str) (pick : Pick) (g : Group W)
    → g.near_cache ≡ none
    → near_attempt env p key pick g ≡ some (g, none)
unfolding near_attempt
near_attempt_absent env p key pick g near = then_step _ _ _ g _ (ap (λ c. not (has c)) near) refl
  where
    has : Option Cache → Bool
    has c = elim c [ none ↦ false | some _ ↦ true ]

-- A picker that names another node as the owner of the key, wherever `Same` holds of what lies outside.
module _ {W : Type 0} (now : ℕ) (getter : Option (Str → M W (Result Str))) (p : Peers W)
    (key owner : Str) (epoch : ℕ) (Same : W → Type 0) (named : is_empty owner ≡ false)
    (steady : (h : Group W)
      → Same h.world
      → p.pick_owner key h ≡ some (h, other_pick owner epoch)) where
  pub settle_steady :
      (left : ℕ) (again : M W (Result (Str × ℕ))) (g : Group W)
      → Same g.world
      → settle (still now (some p) getter) p left key (other_pick owner epoch) again g
        ≡ some (g, ok (owner, epoch))
  unfolding settle
  settle_steady left again g same =
      >>=-some (p.pick_owner key) _ g g (other_pick owner epoch) (steady g same)
      ∙ then_step _ _ _ g _ (stable_self owner epoch) refl

  pub drop_steady :
      (g : Group W) (c : Cache) (removed : Bool)
      → Same g.world
      → g.near_cache ≡ none
      → Cache.delete_key key g.main_cache ≡ some (c, removed)
      → invalidate_local_copies (still now (some p) getter) key g
        ≡ some (record g { main_cache = c }, tt)
  unfolding invalidate_local_copies
  drop_steady g c removed same near dropped =
      >>=-some (p.pick_owner key) _ g g (other_pick owner epoch) (steady g same)
      ∙ >>=-some (if not (is_empty owner) && true then drop_main else pure tt)
          (λ _. invalidate_near_key (still now (some p) getter) key) g (record g { main_cache = c })
          tt
          (then_step _ drop_main (pure tt) g _ (ap (λ b. not b && true) named)
            (ap (on_drop g) dropped))
      ∙ near_absent (still now (some p) getter) key (record g { main_cache = c }) near
    where
      on_drop : Group W → Option (Cache × Bool) → Option (Group W × Unit {0})
      on_drop h o = elim o [ none ↦ none | some (d, r) ↦ some (record h { main_cache = d }, tt) ]

      drop_main : M W (Unit {0})
      drop_main h = on_drop h (Cache.delete_key key h.main_cache)

  abbrev pub with_failure : Bool → Group W → Group W
  with_failure failed g =
      if failed
      then record g {
        stats = record (g.stats) { invalidation_failures = add64 g.stats.invalidation_failures 1 };
      }
      else g

  pub spread_steady :
      (g : Group W) (w : W) (failed : Bool)
      → p.invalidate g.name key owner g ≡ some (record g { world = w }, failed)
      → invalidate_peer_copies (still now (some p) getter) key owner g
        ≡ some (with_failure failed (record g { world = w }), tt)
  unfolding invalidate_peer_copies
  spread_steady g w failed told =
      >>=-some (p.invalidate g.name key owner) _ g (record g { world = w }) failed told
      ∙ go failed (record g { world = w })
    where
      go :
          (b : Bool) (h : Group W)
          → (if◌then◌else◌ {A = M W (Unit {0})} b
                (count (λ s. record s { invalidation_failures = add64 s.invalidation_failures 1 }))
                (pure tt))
              h
            ≡ some (with_failure b h, tt)
      go true h = refl
      go false h = refl

  pub with_failure_like :
      (b : Bool) (g : Group W)
      → let g' = with_failure b g in
        (g'.closed ≡ g.closed)
        × (g'.near_cache ≡ g.near_cache)
        × (g'.name ≡ g.name)
        × (g'.world ≡ g.world)
  with_failure_like true g = (refl, refl, refl, refl)
  with_failure_like false g = (refl, refl, refl, refl)
