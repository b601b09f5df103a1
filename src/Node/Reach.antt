-- ===== src/Node/Reach.antt =====
-- Requests between the nodes of a cluster whose pickers of peers.go agree.
use locache.Base.{
  ℕ, ◌≡◌, refl, sym, ◌∙◌, ap, subst, Option, none, some, [], ◌∷◌, Bool, true, false, not, arith,
}
use locache.Base.Str.{Str}
use locache.Base.Map.{lookup}
use locache.Group.State.{Result, ok, Error, Group, M, Pick, >>=-some, else_step}
use locache.Group.Local.{enter_epoch, own_pick, prepare_local_owner, is_empty}
use locache.Group.Local.Owner.{still}
use locache.Group.Remote.Steady.{other_pick}
use locache.Peers.{ClientPicker, Picked, is_nil, pick_owner as pick}
use locache.Peers.Invariant.{IsValid}
use locache.Peers.Picks.{IsPick, pick_owner-IsPick}
use locache.Peers.Replace.{some-none}
use locache.Rpc.{Grpc, LocacheClient}
use locache.Node.{World, to_pick, picker_peers}

full_owner :
    (crc : Str → ℕ) (p : ClientPicker) (owner : Str)
    → IsValid crc p
    → lookup owner p.members ≡ some tt
    → is_empty owner ≡ false
full_owner crc p [] v member = absurd (some-none (sym member ∙ v.named))
full_owner crc p (b ∷ owner) v member = refl

pick_of :
    (a : Picked) (mine : Bool) (epoch : ℕ)
    → a.ok ≡ true
    → a.is_self ≡ mine
    → is_nil a.peer ≡ a.is_self
    → a.epoch ≡ epoch
    → to_pick a
      ≡ record { owner = a.owner; has_peer = not mine; is_self = mine; epoch = epoch; ok = true }
pick_of a mine epoch fine self peer now =
    ap
      (λ n. record {
        owner = a.owner;
        has_peer = not n;
        is_self = a.is_self;
        epoch = a.epoch;
        ok = a.ok;
      })
      (peer ∙ self)
    ∙ ap
        (λ n. record {
          owner = a.owner;
          has_peer = not mine;
          is_self = n;
          epoch = a.epoch;
          ok = a.ok;
        })
        self
    ∙ ap
        (λ n. record { owner = a.owner; has_peer = not mine; is_self = mine; epoch = n; ok = a.ok })
        now
    ∙ ap
        (λ n. record {
          owner = a.owner;
          has_peer = not mine;
          is_self = mine;
          epoch = epoch;
          ok = n;
        })
        fine

-- What a group makes of a pick: this node owns the key, or another one that has a client.
abbrev self_pick : Str → ℕ → Pick
self_pick owner epoch = record {
  owner = owner;
  has_peer = false;
  is_self = true;
  epoch = epoch;
  ok = true;
}

module _ {S : Type 0} (grpc : Grpc) (rpc : Str → LocacheClient S) (deadline : Option ℕ) (now : ℕ)
    (events : ℕ × Option Error) (crc : Str → ℕ) (b : ℕ) (key : Str) (p : ClientPicker) (a : Picked)
    (v : IsValid crc p) (picked : pick (b ∷ key) p ≡ some a) where
  is_pick : IsPick p a
  is_pick =
      let (a', (picked', k)) = pick_owner-IsPick crc b key p v in
      subst (IsPick p) (some_inj (sym picked' ∙ picked)) k
    where
      some_inj : {x y : Picked} → ◌≡◌ {A = Option Picked} (some x) (some y) → x ≡ y
      some_inj e = cc

  on_picked : Group (World S) → Option Picked → Option (Group (World S) × Pick)
  on_picked h o = elim o [ none ↦ none | some k ↦ some (h, to_pick k) ]

  pub named_owner : is_empty a.owner ≡ false
  named_owner = full_owner crc p a.owner v is_pick.1

  pub pick_other :
      a.is_self ≡ false
      → (h : Group (World S)) → h.world.picker ≡ p
      → (picker_peers grpc rpc deadline now events).pick_owner (b ∷ key) h
        ≡ some (h, other_pick a.owner p.epoch)
  unfolding picker_peers on_picked
  pick_other other h same =
      ap (on_picked h) (ap (pick (b ∷ key)) same ∙ picked)
      ∙ ap (λ k. some (h, k)) (pick_of a false p.epoch is_pick.0 other is_pick.3 is_pick.4)

  pub pick_self :
      a.is_self ≡ true
      → (h : Group (World S)) → h.world.picker ≡ p
      → (picker_peers grpc rpc deadline now events).pick_owner (b ∷ key) h
        ≡ some (h, self_pick a.owner p.epoch)
  unfolding picker_peers on_picked
  pick_self mine h same =
      ap (on_picked h) (ap (pick (b ∷ key)) same ∙ picked)
      ∙ ap (λ k. some (h, k)) (pick_of a true p.epoch is_pick.0 mine is_pick.3 is_pick.4)

  -- The owner finds itself.
  pub prepared_self :
      (getter : Option (Str → M (World S) (Result Str)))
      → a.is_self ≡ true
      → (h : Group (World S)) → h.world.picker ≡ p
      → prepare_local_owner
          (still now (some (picker_peers grpc rpc deadline now events)) getter)
          (b ∷ key)
          h
        ≡ some (enter_epoch p.epoch h, ok p.epoch)
  unfolding prepare_local_owner own_pick
  prepared_self getter mine h same =
      >>=-some ((picker_peers grpc rpc deadline now events).pick_owner (b ∷ key)) _ h h
        (self_pick a.owner p.epoch) (pick_self mine h same)
      ∙ else_step _ _ _ h _ named_owner refl

-- Where the epoch was entered, it is entered.
pub enter_epoch-epoch : {W : Type 0} (e : ℕ) (g : Group W) → (enter_epoch e g).owner_epoch ≡ e
unfolding enter_epoch
enter_epoch-epoch e g = ground arith

pub enter_epoch_again :
    {W : Type 0} (e : ℕ) (g : Group W)
    → g.owner_epoch ≡ e
    → (enter_epoch e g).main_cache ≡ g.main_cache
unfolding enter_epoch
enter_epoch_again e g same = ground (arith, same)

-- Entering an epoch leaves all but the cache.
pub enter_epoch-IsKept :
    {W : Type 0} (e : ℕ) (g : Group W)
    → ((enter_epoch e g).closed ≡ g.closed)
      × ((enter_epoch e g).near_cache ≡ g.near_cache)
      × ((enter_epoch e g).expiration ≡ g.expiration)
      × ((enter_epoch e g).world ≡ g.world)
unfolding enter_epoch
enter_epoch-IsKept e g = (ground arith, ground arith, ground arith, ground arith)
