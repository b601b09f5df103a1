-- ===== src/Group/Remote/Laws.antt =====
-- `Set` of group.go while the ownership of a key flips between the calls of the picker.
use locache.Base.{ℕ, suc, ◌≡◌, refl, none, some, [], ◌∷◌, Bool, true, false, not}
use locache.Base.Words.{add64}
use locache.Base.Str.{Str}
use locache.Group.State.{Group, pure, gets, ok, err, other, is_retry, root, Peers, Env}
use locache.Group.Local.{own_pick, prepare_local_owner, set_local, invalidate_near_key}
use locache.Group.Remote.{
  set, set_loop, finish_set, invalidate_local_copies, invalidate_peer_copies, keep_copy,
}

-- Whether this node is the owner at the next call of the picker, the epoch then, and how often a peer
-- was sent a value. Each call of the picker sees a change of membership.
pub record World : Type 0 where
  pub mine : Bool
  pub epoch : ℕ
  pub sent : ℕ

abbrev pub flapping_peers : Str → Peers World
flapping_peers owner = record {
  pick_owner = λ key g. some (
    record g { world = record (g.world) { mine = not g.world.mine; epoch = suc g.world.epoch } },
    record {
      owner = owner;
      has_peer = true;
      is_self = g.world.mine;
      epoch = g.world.epoch;
      ok = true;
    },
  );
  epoch_of = gets (λ g. g.world.epoch);
  invalidate = λ name key except. pure false;
  peer_get = λ at name key. pure (err (other []));
  peer_set = λ at name key value g.
      some (record g { world = record (g.world) { sent = suc g.world.sent } }, ok tt);
  peer_delete = λ at name key. pure (err (other []));
  wait_events = pure (0, none);
}

abbrev pub flapping : Str → Env World
flapping owner = record { clock = pure 0; peers = some (flapping_peers owner); getter = none }

-- An open group without a near cache, whose node owns the key at the next call of the picker.
abbrev pub about_to_flip : Group World → ℕ → Group World
about_to_flip g epoch = record g {
  closed = false;
  near_cache = none;
  world = record { mine = true; epoch = epoch; sent = 0 };
}

-- While ownership flips away between the two calls of the picker that each attempt makes, `Set` of an
-- open group without a near cache returns without an error, for every key and value that is not empty;
-- its count of writes is one more, its cache is as before, and no peer was sent the value.
pub set_lost :
    (o b : ℕ) (owner key : Str) (c : ℕ) (value : Str) (g : Group World) (epoch : ℕ)
    → (g' : Group World) × ((set
            (flapping (o ∷ owner))
            (b ∷ key)
            (c ∷ value)
            (about_to_flip g epoch)
          ≡ some (g', ok tt))
        × ((g'.stats.sets ≡ add64 g.stats.sets 1)
            × (g'.main_cache ≡ g.main_cache)
            × (g'.world.sent ≡ 0)))
unfolding set set_loop set_local prepare_local_owner own_pick is_retry root finish_set
    invalidate_local_copies invalidate_peer_copies keep_copy invalidate_near_key
set_lost o b owner key c value g epoch = (_, (refl, (refl, refl, refl)))
