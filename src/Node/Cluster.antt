-- ===== src/Node/Cluster.antt =====
-- The owner of a key among the nodes of a cluster, as its handlers of server.go serve it.
use locache.Base.{Bool, ℕ, ◌≡◌, refl, sym, ◌∙◌, ap, subst, Option, none, some, ◌∷◌, true, false}
use locache.Base.Words.{gt64}
use locache.Base.Str.{Str}
use locache.Cache.{Cache, ByteView}
use locache.Cache
use locache.Group.State.{Error, Result, ok, err, cache_miss, Group, M}
use locache.Group.Local.{enter_epoch, prepare_local_owner, set_local, get_local, delete_owner_local}
use locache.Group.Local.Owner.{still, near_absent, IsKept}
use locache.Group.Local.Owner.Calls.{set_local_owner, get_local_owner, get_local_missed}
use locache.Group.Local.Owner.Calls
use locache.Group.Table.{Instance, Groups, set_heap, get_group}
use locache.Group.Table.Laws.{set_heap_self}
use locache.Peers.{ClientPicker, Picked, pick_owner as pick}
use locache.Peers.Invariant.{IsValid}
use locache.Rpc.{Grpc, LocacheClient}
use locache.Rpc.Server.{reply, map_group_error}
use locache.Rpc.Server
use locache.Rpc.Requests.{on_group_answer}
use locache.Node.{World, picker_peers}
use locache.Node.Reach.{prepared_self, enter_epoch-epoch, enter_epoch_again, enter_epoch-IsKept}

-- The picker of a group.
abbrev pub picker_at : {T : Type 0} → Groups (World T) → ℕ → ClientPicker
picker_at gs q = (gs.heap q).state.world.picker

-- A group once it has entered the epoch of its picker.
abbrev pub entered : {T : Type 0} → Groups (World T) → ℕ → Group (World T)
entered gs q = enter_epoch (picker_at gs q).epoch (gs.heap q).state

-- Among the groups of a node, the group of the name: it is open, without a near cache and without a
-- default lifetime, and its picker is well-formed.
pub record IsServing {T : Type 0} (grpc : Grpc) (rpc : Str → LocacheClient T) (deadline : Option ℕ)
    (now : ℕ) (events : ℕ × Option Error) (crc : Str → ℕ)
    (getter : Option (Str → M (World T) (Result Str))) (name : Str) (gs : Groups (World T)) (q : ℕ)
    : Type 0 where
  pub found : get_group name gs ≡ some q
  pub calls : (gs.heap q).env ≡ still now (some (picker_peers grpc rpc deadline now events)) getter
  pub opened : (gs.heap q).state.closed ≡ false
  pub near : (gs.heap q).state.near_cache ≡ none
  pub forever : gt64 (gs.heap q).state.expiration 0 ≡ false
  pub valid : IsValid crc (picker_at gs q)

module _ {T : Type 0} (grpc : Grpc) (rpc : Str → LocacheClient T) (deadline : Option ℕ) (now : ℕ)
    (events : ℕ × Option Error) (crc : Str → ℕ) (getter : Option (Str → M (World T) (Result Str)))
    (name : Str) (k : ℕ) (key : Str) where
  -- Its picker says that this node owns the key.
  pub record IsOwner (gs : Groups (World T)) (q : ℕ) : Type 0 where
    pub serving : IsServing grpc rpc deadline now events crc getter name gs q
    pub answer : Picked
    pub picked : pick (k ∷ key) (picker_at gs q) ≡ some answer
    pub mine : answer.is_self ≡ true

  module _ (gs : Groups (World T)) (q : ℕ) (h : IsOwner gs q) where
    prepared :
        prepare_local_owner
          (still now (some (picker_peers grpc rpc deadline now events)) getter)
          (k ∷ key)
          (gs.heap q).state
        ≡ some (entered gs q, ok (picker_at gs q).epoch)
    prepared =
        prepared_self grpc rpc deadline now events crc k key (picker_at gs q) h.answer
          h.serving.valid h.picked getter h.mine (gs.heap q).state refl

    abbrev after : Group (World T) → Groups (World T)
    after g = record gs { heap = set_heap gs.heap q (record { state = g; env = (gs.heap q).env }) }

    at_after :
        (g : Group (World T)) → (after g).heap q ≡ record { state = g; env = (gs.heap q).env }
    at_after g = set_heap_self gs.heap q (record { state = g; env = (gs.heap q).env })

    after-IsOwner : (g : Group (World T)) → IsKept (entered gs q) g → IsOwner (after g) q
    unfolding get_group
    after-IsOwner g kept =
        let same = enter_epoch-IsKept (picker_at gs q).epoch (gs.heap q).state in
        let picker =
          ap (λ (i : Instance (World T)). i.state.world.picker) (at_after g)
          ∙ ap (λ (w : World T). w.picker) (kept.world ∙ same.3) in
        record {
          serving = record {
            found = h.serving.found;
            calls = ap (λ (i : Instance (World T)). i.env) (at_after g) ∙ h.serving.calls;
            opened =
                ap (λ (i : Instance (World T)). i.state.closed) (at_after g)
                ∙ kept.opened
                ∙ same.0
                ∙ h.serving.opened;
            near =
                ap (λ (i : Instance (World T)). i.state.near_cache) (at_after g)
                ∙ kept.near
                ∙ same.1
                ∙ h.serving.near;
            forever =
                ap (λ (i : Instance (World T)). gt64 i.state.expiration 0) (at_after g)
                ∙ ap (λ n. gt64 n 0) (kept.lifetime ∙ same.2)
                ∙ h.serving.forever;
            valid = subst (IsValid crc) (sym picker) h.serving.valid;
          };
          answer = h.answer;
          picked = ap (pick (k ∷ key)) picker ∙ h.picked;
          mine = h.mine;
        }

    entered-after :
        (g : Group (World T))
        → IsKept (entered gs q) g
        → (entered (after g) q).main_cache ≡ g.main_cache
    entered-after g kept =
        let same = enter_epoch-IsKept (picker_at gs q).epoch (gs.heap q).state in
        ap (λ (i : Instance (World T)). (enter_epoch i.state.world.picker.epoch i.state).main_cache)
          (at_after g)
        ∙ enter_epoch_again g.world.picker.epoch g (
            kept.epoch
            ∙ enter_epoch-epoch (picker_at gs q).epoch (gs.heap q).state
            ∙ sym (ap (λ (w : World T). w.picker.epoch) (kept.world ∙ same.3)))

    -- A request to set the key stores the value, and this node stays the owner.
    pub set_owner :
        (value : Str) (c : Cache)
        → Cache.add (k ∷ key) (record { b = value }) now now (entered gs q).main_cache ≡ some c
        → (gs' : Groups (World T)) × ((Server.set grpc name (k ∷ key) value gs
              ≡ some (gs', ok value))
            × ((entered gs' q).main_cache ≡ c)
            × IsOwner gs' q)
    unfolding Server.set
    set_owner value c added =
        let same = enter_epoch-IsKept (picker_at gs q).epoch (gs.heap q).state in
        let (g, (done, cache, kept)) =
          set_local_owner now (some (picker_peers grpc rpc deadline now events)) getter (k ∷ key)
            value (gs.heap q).state (entered gs q) (picker_at gs q).epoch c h.serving.opened
            prepared (ap (λ n. gt64 n 0) same.2 ∙ h.serving.forever)
            (λ g e.
              near_absent (still now (some (picker_peers grpc rpc deadline now events)) getter)
                (k ∷ key) g (e ∙ same.1 ∙ h.serving.near))
            added in
        (
          after g,
          (
            on_group_answer name (λ env. set_local env (k ∷ key) value) (reply grpc (λ _. value)) gs
                q g (ok tt) h.serving.found
                (ap (λ env. set_local env (k ∷ key) value (gs.heap q).state) h.serving.calls
                  ∙ done),
            entered-after g kept ∙ cache,
            after-IsOwner g kept,
          ),
        )

    -- A request to delete the key drops it, and this node stays the owner.
    pub delete_owner :
        (c : Cache) (removed : Bool)
        → Cache.delete_key (k ∷ key) (entered gs q).main_cache ≡ some (c, removed)
        → (gs' : Groups (World T)) × ((Server.delete_key grpc false name (k ∷ key) gs
              ≡ some (gs', ok removed))
            × ((entered gs' q).main_cache ≡ c)
            × IsOwner gs' q)
    unfolding Server.delete_key
    delete_owner c removed dropped =
        let same = enter_epoch-IsKept (picker_at gs q).epoch (gs.heap q).state in
        let (g, (done, cache, kept)) =
          Calls.delete_owner now (some (picker_peers grpc rpc deadline now events)) getter (k ∷ key)
            (gs.heap q).state (entered gs q) (picker_at gs q).epoch c removed h.serving.opened
            prepared (same.1 ∙ h.serving.near) dropped in
        (
          after g,
          (
            on_group_answer name (λ env. delete_owner_local env (k ∷ key)) (reply grpc (λ b. b)) gs
                q g (ok removed) h.serving.found
                (ap (λ env. delete_owner_local env (k ∷ key) (gs.heap q).state) h.serving.calls
                  ∙ done),
            entered-after g kept ∙ cache,
            after-IsOwner g kept,
          ),
        )

    -- A request to get a key that the cache has gives its value, and this node stays the owner.
    pub get_owner :
        (v : ByteView) (c : Cache)
        → Cache.get (k ∷ key) now (entered gs q).main_cache ≡ some (c, some v)
        → (gs' : Groups (World T)) × ((Server.get grpc name (k ∷ key) gs ≡ some (gs', ok v.b))
            × ((entered gs' q).main_cache ≡ c)
            × IsOwner gs' q)
    unfolding Server.get
    get_owner v c found =
        let (g, (done, cache, kept)) =
          get_local_owner now (some (picker_peers grpc rpc deadline now events)) getter (k ∷ key) v
            (gs.heap q).state (entered gs q) (picker_at gs q).epoch c h.serving.opened prepared
            found in
        (
          after g,
          (
            on_group_answer name (λ env. get_local env (k ∷ key))
                (reply grpc (λ (w : ByteView). w.b)) gs q g (ok v) h.serving.found
                (ap (λ env. get_local env (k ∷ key) (gs.heap q).state) h.serving.calls ∙ done),
            entered-after g kept ∙ cache,
            after-IsOwner g kept,
          ),
        )

-- A request to get a key that the cache does not have, where there is no source, is answered with a miss.
pub miss_owner :
    {T : Type 0} (grpc : Grpc) (rpc : Str → LocacheClient T) (deadline : Option ℕ) (now : ℕ)
    (events : ℕ × Option Error) (crc : Str → ℕ) (name : Str) (k : ℕ) (key : Str)
    (gs : Groups (World T)) (q : ℕ) (c : Cache)
    → IsOwner grpc rpc deadline now events crc none name k key gs q
    → Cache.get (k ∷ key) now (entered gs q).main_cache ≡ some (c, none)
    → (gs' : Groups (World T)) × (Server.get grpc name (k ∷ key) gs
        ≡ some (gs', err (map_group_error grpc cache_miss)))
unfolding Server.get
miss_owner grpc rpc deadline now events crc name k key gs q c h missing =
    let (g, done) =
      get_local_missed now (some (picker_peers grpc rpc deadline now events)) (k ∷ key)
        (gs.heap q).state (entered gs q) (picker_at gs q).epoch c h.serving.opened
        (prepared grpc rpc deadline now events crc none name k key gs q h) missing in
    (
      _,
      on_group_answer name (λ e. get_local e (k ∷ key)) (reply grpc (λ (w : ByteView). w.b)) gs q g
          (err cache_miss) h.serving.found
          (ap (λ e. get_local e (k ∷ key) (gs.heap q).state) h.serving.calls ∙ done),
    )
