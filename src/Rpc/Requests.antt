-- ===== src/Rpc/Requests.antt =====
-- Requests of client.go to the handlers of server.go, over the groups of the node that serves them.
use locache.Base.{ℕ, ◌≡◌, refl, ◌∙◌, ap, Option, none, some, [], ◌∷◌, Bool, true, false}
use locache.Base.Str.{Str}
use locache.Group.State.{
  not_owner, owner_error, Error, root, is_retry, Result, err, Group, M, Peers, Env, >>=-some,
  else_step,
}
use locache.Group.Local.{
  is_empty, own_pick, prepare_local_owner, get_local, set_local, delete_owner_local,
}
use locache.Group.Table.{Instance, Groups, set_heap, get_group}
use locache.Peers.{Client}
use locache.Rpc.{Grpc, IsGrpc}
use locache.Rpc.Client
use locache.Rpc.Server.{map_group_error, on_group, connection}
use locache.Rpc.Server
use locache.Rpc.Codes.{received, requester_sees, tells_move}

-- A group that is open, but whose picker says that another node owns the key; `g` is the group after
-- the picker was asked.
pub record IsElsewhere {W : Type 0} (key owner : Str) (i : Instance W) (g : Group W) : Type 0 where
  pub opened : i.state.closed ≡ false
  pub picker : Peers W
  pub asked : i.env.peers ≡ some picker
  pub epoch : ℕ
  pub has_peer : Bool
  pub named : is_empty owner ≡ false
  pub answer :
      picker.pick_owner key i.state
      ≡ some (
        g,
        record { owner = owner; has_peer = has_peer; is_self = false; epoch = epoch; ok = true },
      )

own_pick_elsewhere :
    {W : Type 0} (env : Env W) (owner : Str) (has_peer : Bool) (epoch : ℕ) (g : Group W)
    → is_empty owner ≡ false
    → own_pick env
        (record { owner = owner; has_peer = has_peer; is_self = false; epoch = epoch; ok = true })
        g
      ≡ some (g, err (owner_error not_owner owner))
unfolding own_pick
own_pick_elsewhere env [] has_peer epoch g e = absurd (clash e)
  where
    clash : ◌≡◌ {A = Bool} true false → ⊥
    clash k = cc
own_pick_elsewhere env (b ∷ owner) has_peer epoch g e = refl

module _ {W : Type 0} (key owner : Str) (i : Instance W) (g : Group W)
    (h : IsElsewhere key owner i g) where
  prepared : prepare_local_owner i.env key i.state ≡ some (g, err (owner_error not_owner owner))
  unfolding prepare_local_owner
  prepared =
      rw (h.asked, prepare_local_owner)
        (>>=-some (h.picker.pick_owner key) (own_pick i.env) i.state g _ h.answer
          ∙ own_pick_elsewhere i.env owner h.has_peer h.epoch g h.named)

  get_local_elsewhere : get_local i.env key i.state ≡ some (g, err (owner_error not_owner owner))
  unfolding get_local
  get_local_elsewhere =
      else_step _ _ _ i.state _ h.opened
        (>>=-some (prepare_local_owner i.env key) _ i.state g _ prepared)

  set_local_elsewhere :
      (value : Str)
      → set_local i.env key value i.state ≡ some (g, err (owner_error not_owner owner))
  unfolding set_local
  set_local_elsewhere value =
      else_step _ _ _ i.state _ h.opened
        (>>=-some (prepare_local_owner i.env key) _ i.state g _ prepared)

  delete_elsewhere :
      delete_owner_local i.env key i.state ≡ some (g, err (owner_error not_owner owner))
  unfolding delete_owner_local
  delete_elsewhere =
      else_step _ _ _ i.state _ h.opened
        (>>=-some (prepare_local_owner i.env key) _ i.state g _ prepared)

-- A handler whose method answers.
pub on_group_answer :
    {W A B : Type 0} (name : Str) (m : Env W → M W A) (f : A → Result B) (gs : Groups W) (p : ℕ)
    (g : Group W) (a : A)
    → get_group name gs ≡ some p
    → m (gs.heap p).env (gs.heap p).state ≡ some (g, a)
    → on_group name m f gs
      ≡ some (
        record gs { heap = set_heap gs.heap p (record { state = g; env = (gs.heap p).env }) },
        f a,
      )
unfolding on_group
on_group_answer {W} {A} name m f gs p g a found e =
    rw (found, on_group) (ap (λ r. Server.stored p f gs (with_env r)) e)
  where
    with_env : Option (Group W × A) → Option (Instance W × A)
    with_env none = none
    with_env (some (h, b)) = some (record { state = h; env = (gs.heap p).env }, b)

-- A request to get, set or delete a key, at a node whose group of that name is open but whose picker
-- says that another node owns the key, comes back with an error that the requester takes for a change
-- of ownership; the node's groups are as before, but for what its picker did.
pub requests_refused :
    {W : Type 0} (grpc : Grpc) (deadline : Option ℕ) (now : ℕ) (c : Client)
    (name key value owner : Str) (gs : Groups W) (p : ℕ) (g : Group W)
    → IsGrpc grpc
    → get_group name gs ≡ some p
    → IsElsewhere key owner (gs.heap p) g
    → let gs' = record gs {
      heap = set_heap gs.heap p (record { state = g; env = (gs.heap p).env });
    } in
      (e : Error) × ((is_retry e ≡ true)
        × (Client.get grpc (connection grpc) deadline now (some c) name key gs ≡ some (gs', err e))
        × (Client.set grpc (connection grpc) deadline now (some c) name key value gs
            ≡ some (gs', err e))
        × (Client.delete_key grpc (connection grpc) deadline now (some c) name key gs
            ≡ some (gs', err e)))
unfolding Client.get Client.set Client.delete_key Server.get Server.set Server.delete_key root
requests_refused grpc deadline now c name key value owner gs p g known found h = (
  received grpc c.addr (map_group_error grpc (owner_error not_owner owner)),
  (
    (requester_sees grpc known c.addr (owner_error not_owner owner)).0 ∙ ap tells_move moved,
    ap (λ r. Client.answered grpc c (λ v. v) (Server.over_wire grpc r))
        (on_group_answer name _ _ gs p g _ found (get_local_elsewhere key owner (gs.heap p) g h)),
    ap (λ r. Client.answered grpc c (λ _. tt) (Server.over_wire grpc r))
        (on_group_answer name _ _ gs p g _ found
          (set_local_elsewhere key owner (gs.heap p) g h value)),
    ap (λ r. Client.answered grpc c (λ v. v) (Server.over_wire grpc r))
        (on_group_answer name _ _ gs p g _ found (delete_elsewhere key owner (gs.heap p) g h)),
  ),
)
  where
    moved : root (owner_error not_owner owner) ≡ not_owner
    moved = refl
