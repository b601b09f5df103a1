-- ===== src/Node/Spread.antt =====
-- The requests by which `Invalidate` of peers.go drops the copies of other nodes.
use locache.Base.{
  ℕ, ◌≡◌, ◌≢◌, inl, inr, refl, sym, ◌∙◌, ap, subst, Option, none, some, [], ◌∷◌, Bool, true, false,
  ◌||◌, if_pos, if_neg, arith, All, Option-cases,
}
use locache.Base.Str.{Str, str_dec}
use locache.Base.Map.{Map}
use locache.Cache.Deletes.{Serves, delete_key-Serves}
use locache.Group.State.{Error, call_error, Result, ok, err, Group, Env}
use locache.Group.Local.{delete_local}
use locache.Group.Local.Owner.{delete_local-IsKept}
use locache.Group.Table.{Instance, Groups, set_heap, get_group}
use locache.Group.Table.Laws.{set_heap_self, some_inj}
use locache.Peers.{Client}
use locache.Rpc.{Grpc}
use locache.Rpc.Client
use locache.Rpc.Client.{classify_rpc_error}
use locache.Rpc.Server
use locache.Rpc.Server.{group_not_found, on_group}
use locache.Rpc.Requests.{on_group_answer}
use locache.Node.{Net, set_node, at_node, connect, is_err, or_failed, invalidate_each}

-- A node whose group of the name, if it has one, has no near cache, and an LRU for the key.
pub record IsCalm {W : Type 0} (name key : Str) (gs : Groups W) : Type 0 where
  pub near : (q : ℕ) → get_group name gs ≡ some q → (gs.heap q).state.near_cache ≡ none
  pub serves : (q : ℕ) → get_group name gs ≡ some q → Serves key (gs.heap q).state.main_cache

module _ {W : Type 0} (grpc : Grpc) (name key : Str) where
  delete_local_calm :
      (env : Env W) (g : Group W)
      → g.near_cache ≡ none
      → Serves key g.main_cache
      → (h : Group W) × (removed : Bool) × ((delete_local env key g ≡ some (h, removed))
          × (h.near_cache ≡ none)
          × Serves key h.main_cache)
  delete_local_calm env g near serves =
      let (c, removed, (dropped, left)) = delete_key-Serves key g.main_cache serves in
      let (h, (done, cache, kept)) = delete_local-IsKept env key g c removed near dropped in
      (h, removed, (done, kept.near ∙ near, subst (Serves key) (sym cache) left))

  get_group-IsCalm :
      (gs : Groups W) (q : ℕ)
      → get_group name gs ≡ some q
      → (gs.heap q).state.near_cache ≡ none
      → Serves key (gs.heap q).state.main_cache
      → IsCalm name key gs
  get_group-IsCalm gs q found near serves = record {
    near = λ n e. subst (λ m. (gs.heap m).state.near_cache ≡ none) (some_inj (sym found ∙ e)) near;
    serves = λ n e.
        subst (λ m. Serves key (gs.heap m).state.main_cache) (some_inj (sym found ∙ e)) serves;
  }

  -- A node that drops its copy answers, and is calm after it.
  delete_key-IsCalm :
      (gs : Groups W)
      → IsCalm name key gs
      → (gs' : Groups W) × (r : Result Bool) × ((Server.delete_key grpc true name key gs
            ≡ some (gs', r))
          × IsCalm name key gs')
  unfolding Server.delete_key on_group get_group
  delete_key-IsCalm gs calm = elim (Option-cases (get_group name gs)) [
    | inl absent ↦ (gs, err (group_not_found name), (ground (arith, absent), calm))
    | inr (q, found) ↦
        let i = gs.heap q in
        let (g, removed, (done, near, left)) =
          delete_local_calm i.env i.state (calm.near q found) (calm.serves q found) in
        let i' : Instance W = record { state = g; env = i.env } in
        let at = set_heap_self gs.heap q i' in
        (
          record gs { heap = set_heap gs.heap q i' },
          ok removed,
          (
            on_group_answer name (λ env. delete_local env key) (λ b. ok b) gs q g removed found
                done,
            get_group-IsCalm (record gs { heap = set_heap gs.heap q i' }) q found
                (ap (λ (j : Instance W). j.state.near_cache) at ∙ near)
                (subst (λ (j : Instance W). Serves key j.state.main_cache) (sym at) left),
          ),
        )
  ]

  -- The node that a client reaches.
  invalidate_at :
      (deadline : Option ℕ) (now : ℕ) (c : Client) (s : Net W)
      → IsCalm name key (s c.addr)
      → (gs' : Groups W) × (r : Result (Unit {0})) × ((Client.invalidate grpc
              (connect grpc c.addr)
              deadline
              now
              (some c)
              name
              key
              s
            ≡ some (set_node s c.addr gs', r))
          × IsCalm name key gs')
  unfolding Client.invalidate connect
  invalidate_at deadline now c s calm =
      let (gs', r, (done, calm')) = delete_key-IsCalm (s c.addr) calm in
      (
        gs',
        told r,
        (
          ap
                (λ o.
                  Client.answered grpc c (λ _. tt)
                    (at_node c.addr (λ _. Server.over_wire grpc o) s))
                done
              ∙ go gs' r,
          calm',
        ),
      )
    where
      told : Result Bool → Result (Unit {0})
      told (ok b) = ok tt
      told (err e) = err (call_error (classify_rpc_error grpc (grpc.carry e)) c.addr)

      go :
          (gs' : Groups W) (r : Result Bool)
          → Client.answered grpc c
              (λ _. tt)
              (at_node c.addr (λ _. Server.over_wire grpc (some (gs', r))) s)
            ≡ some (set_node s c.addr gs', told r)
      go gs' (ok b) = refl
      go gs' (err e) = refl

  -- Every request returns where the other nodes are calm, and the node at `owner` is left alone.
  pub invalidate_each_calm :
      (deadline : Option ℕ) (now : ℕ) (events : ℕ × Option Error) (owner : Str) (m : Map Client)
      (s : Net W)
      → All (λ (e : Str × Client). e.1.addr ≢ owner) m
      → ((a : Str) → a ≢ owner → IsCalm name key (s a))
      → (s' : Net W) × (failed : Bool) × ((invalidate_each grpc
              (connect grpc)
              deadline
              now
              events
              name
              key
              m
              s
            ≡ some (s', failed))
          × (s' owner ≡ s owner))
  unfolding invalidate_each
  invalidate_each_calm deadline now events owner [] s away calm = (s, false, (refl, refl))
  invalidate_each_calm deadline now events owner ((addr, c) ∷ m) s away calm =
      let (gs', r, (done, calm')) = invalidate_at deadline now c s (calm c.addr away.0) in
      let (s', failed, (rest, same)) =
        invalidate_each_calm deadline now events owner m (set_node s c.addr gs') away.1 (λ a ne.
          elim (str_dec c.addr a) [
            | yes e ↦ subst (IsCalm name key) (sym (if_pos (str_dec c.addr a) e gs' (s a))) calm'
            | no other ↦
                subst (IsCalm name key) (sym (if_neg (str_dec c.addr a) other gs' (s a)))
                  (calm a ne)
          ]) in
      (
        s',
        is_err r || failed,
        (
          ap step done ∙ ap (or_failed (is_err r)) rest,
          same ∙ if_neg (str_dec c.addr owner) away.0 gs' (s owner),
        ),
      )
    where
      step : Option (Net W × Result (Unit {0})) → Option (Net W × Bool)
      step o = elim o [
        | none ↦ none
        | some (t, q) ↦
            or_failed (is_err q)
              (invalidate_each grpc (connect grpc) deadline now events name key m t)
      ]
