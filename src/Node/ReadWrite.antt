-- ===== src/Node/ReadWrite.antt =====
-- What a node of a cluster reads of a key of another node, after a node wrote it.
use locache.Base.{
  ℕ, ◌+◌, ◌^◌, ◌≤◌, ◌<◌, ◌≡◌, ◌≢◌, sym, ◌∙◌, ap, Option, none, some, [], ◌∷◌, true, false, if_pos,
  length,
}
use locache.Base.Str.{Str, str_dec}
use locache.Base.Map.{lookup}
use locache.Store.Lru.{Lru}
use locache.Store.Lru.Spec.{weigh}
use locache.Store.Lru.Invariant.{view}
use locache.Store.Lru.Invariant
use locache.Store.Choice.Backing.{backing}
use locache.Cache.{Cache, Value, size}
use locache.Cache
use locache.Cache.Deletes.{Serves}
use locache.Cache.Reads
use locache.Group.State.{Error, Result, ok, Group, M}
use locache.Group.Local.Owner.{still}
use locache.Group.Table.{Groups}
use locache.Group.Remote.{set, get}
use locache.Peers.{ClientPicker, Picked, pick_owner as pick}
use locache.Peers.Invariant.{IsValid}
use locache.Peers.Picks.{pick_owner-IsPick, pick_owner_agree}
use locache.Rpc.{Grpc, LocacheClient}
use locache.Rpc.Server
use locache.Node.{World, Net, connect, picker_peers}
use locache.Node.Requests.{IsAsking, get_elsewhere, set_elsewhere}
use locache.Node.Cluster.{IsServing, IsOwner, entered, picker_at, set_owner, get_owner}
use locache.Node.Spread.{IsCalm}

-- Two pickers of one configuration and membership.
abbrev pub Agrees : ClientPicker → ClientPicker → Type 0
Agrees p q =
    (p.hash_replicas ≡ q.hash_replicas) × ((j : Str) → lookup j p.members ≡ lookup j q.members)

owner_like : {x y : Picked} → ◌≡◌ {A = Option Picked} (some x) (some y) → x.owner ≡ y.owner
owner_like e = ap (λ o. elim o [ none ↦ [] | some z ↦ z.owner ]) e

-- A group at a later state of the other nodes.
abbrev pub with_net : {S : Type 0} → Group (World S) → S → Group (World S)
with_net g s = record g { world = record (g.world) { net = s } }

module _ {T : Type 0} (grpc : Grpc) (rpc : Str → LocacheClient T) (deadline : Option ℕ) (now : ℕ)
    (events : ℕ × Option Error) (crc : Str → ℕ) (k : ℕ) (key : Str) where
  -- The group of a name at a node, whose picker has the members of another picker, owns the key where
  -- the other picker names the address of the node.
  pub owner_of :
      (source : Option (Str → M (World T) (Result Str))) (name : Str) (p : ClientPicker)
      (a : Picked) (gs : Groups (World T)) (q : ℕ)
      → IsValid crc p
      → pick (k ∷ key) p ≡ some a
      → IsServing grpc rpc deadline now events crc source name gs q
      → Agrees p (picker_at gs q)
      → (picker_at gs q).self_addr ≡ a.owner
      → IsOwner grpc rpc deadline now events crc source name k key gs q
  owner_of source name p a gs q v picked serving agrees here =
      let w = picker_at gs q in
      let (a', b, (mine, yours, agree, _)) =
        pick_owner_agree crc (k ∷ key) p w v serving.valid agrees.0 agrees.1 in
      let (b', (yours', is_pick)) = pick_owner-IsPick crc k key w serving.valid in
      record {
        serving = serving;
        answer = b';
        picked = yours';
        mine =
            is_pick.2
            ∙ if_pos (str_dec b'.owner w.self_addr)
                (owner_like (sym yours' ∙ yours)
                  ∙ sym agree
                  ∙ owner_like (sym mine ∙ picked)
                  ∙ sym here)
                true false;
      }

  -- The owner that the two pickers name.
  pub same_owner :
      (p q : ClientPicker) (a b : Picked)
      → IsValid crc p
      → IsValid crc q
      → Agrees p q
      → pick (k ∷ key) p ≡ some a
      → pick (k ∷ key) q ≡ some b
      → a.owner ≡ b.owner
  same_owner p q a b v w agrees mine yours =
      let (a', b', (mine', yours', agree, _)) =
        pick_owner_agree crc (k ∷ key) p q v w agrees.0 agrees.1 in
      owner_like (sym mine ∙ mine') ∙ agree ∙ owner_like (sym yours' ∙ yours)

  -- What one node writes, another reads. Where two open groups of one name, without near caches and with
  -- well-formed pickers, find a key at another node and have a client for it; that node serves an open
  -- group of the name, without a near cache or a default lifetime, and its picker, well-formed, stands at
  -- its address; the three pickers have one configuration and the same members; every other node that
  -- serves the name has no near cache for it and an LRU for the key, as has the first group; and key and
  -- bytes fit the owner's open cache, over a well-formed LRU: then a Set of the first group returns
  -- without an error, and a Get of the second, at the nodes as the Set left them, returns the value. The
  -- clock and the members stand still, and requests are served one after the other.
  pub get-set_cluster :
      (g r : Group (World (Net (World T))))
      (getter getter' : Option (Str → M (World (Net (World T))) (Result Str)))
      (source : Option (Str → M (World T) (Result Str))) (q b : ℕ) (value : Str) (l : Lru Value)
      → (w : IsAsking crc k key g) → (u : IsAsking crc k key r)
      → (serving : IsServing grpc rpc deadline now events crc source g.name
          (g.world.net w.answer.owner)
          q)
      → r.name ≡ g.name
      → (picker_at (g.world.net w.answer.owner) q).self_addr ≡ w.answer.owner
      → Agrees g.world.picker (picker_at (g.world.net w.answer.owner) q)
      → Agrees g.world.picker r.world.picker
      → ((addr : Str) → addr ≢ w.answer.owner → IsCalm g.name (k ∷ key) (g.world.net addr))
      → Serves (k ∷ key) g.main_cache
      → (entered (g.world.net w.answer.owner) q).main_cache.closed ≡ false
      → backing (k ∷ key) (entered (g.world.net w.answer.owner) q).main_cache.store ≡ some l
      → Invariant.IsValid size l
      → l.max_bytes < 2 ^ 64
      → weigh size (view l) + length (k ∷ key) + length (b ∷ value) < 2 ^ 63
      → length (k ∷ key) + length (b ∷ value) ≤ l.max_bytes
      → (g' r' : Group (World (Net (World T)))) × ((set
              (still now (some (picker_peers grpc (connect grpc) deadline now events)) getter)
              (k ∷ key)
              (b ∷ value)
              g
            ≡ some (g', ok tt))
          × (get
                (still now (some (picker_peers grpc (connect grpc) deadline now events)) getter')
                (k ∷ key)
                (with_net r g'.world.net)
              ≡ some (r', ok (record { b = b ∷ value }))))
  get-set_cluster g r getter getter' source q b value l w u serving name home agree agree' calm
        serves opened backs valid word small fits =
      let (c, c', (added, found)) =
        Reads.get-add (k ∷ key) (record { b = b ∷ value }) now now now _ l opened backs valid word
          small fits in
      let (gs, (stored, cache, owns)) =
        set_owner grpc rpc deadline now events crc source g.name k key (g.world.net w.answer.owner)
          q
          (owner_of source g.name g.world.picker w.answer (g.world.net w.answer.owner) q w.valid
            w.picked serving agree home)
          (b ∷ value) c added in
      let (gs', (read, _, _)) =
        get_owner grpc rpc deadline now events crc source g.name k key gs q owns
          (record { b = b ∷ value }) c' (ap (Cache.get (k ∷ key) now) cache ∙ found) in
      let (g', (written, left)) =
        set_elsewhere grpc deadline now events k key crc getter g w b value gs serves calm stored in
      let (r', answered) =
        get_elsewhere grpc deadline now events k key crc getter' (with_net r g'.world.net)
          (record {
            opened = u.opened;
            near = u.near;
            valid = u.valid;
            answer = u.answer;
            picked = u.picked;
            other = u.other;
            client = u.client;
            has = u.has;
          })
          (b ∷ value) gs'
          (ap (λ n. Server.get grpc n (k ∷ key) (g'.world.net u.answer.owner)) name
            ∙ ap (λ addr. Server.get grpc g.name (k ∷ key) (g'.world.net addr))
                (sym (
                  same_owner g.world.picker r.world.picker w.answer u.answer w.valid u.valid agree'
                    w.picked u.picked))
            ∙ ap (Server.get grpc g.name (k ∷ key)) left
            ∙ read) in
      (g', r', (written, answered))
