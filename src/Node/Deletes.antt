-- ===== src/Node/Deletes.antt =====
-- What a node of a cluster reads of a key of another node, after a node deleted it.
use locache.Base.{ℕ, ◌≡◌, ◌≢◌, sym, ◌∙◌, ap, Option, none, some, ◌∷◌, true, false}
use locache.Base.Str.{Str}
use locache.Store.Lru.{Lru}
use locache.Store.Lru.Invariant
use locache.Store.Choice.Backing.{backing}
use locache.Cache.{Value, size}
use locache.Cache
use locache.Cache.Deletes.{Serves, get-delete_key}
use locache.Group.State.{
  Error, cache_miss, call_error, root, is_retry, is_cache_miss, Result, ok, err, Group, M,
}
use locache.Group.Local.Owner.{still}
use locache.Group.Remote.{get, delete_key}
use locache.Rpc.{Grpc, IsGrpc, LocacheClient}
use locache.Rpc.Codes.{received, requester_sees}
use locache.Rpc.Server.{map_group_error}
use locache.Rpc.Server
use locache.Node.{World, Net, connect, picker_peers}
use locache.Node.Spread.{IsCalm}
use locache.Node.Requests.{IsAsking, missed_elsewhere, delete_elsewhere}
use locache.Node.Cluster.{IsServing, entered, picker_at, delete_owner, miss_owner}
use locache.Node.ReadWrite.{Agrees, with_net, owner_of, same_owner}

-- The requester takes the answer for a miss, and does not try again.
miss_seen :
    (grpc : Grpc) (addr owner : Str)
    → IsGrpc grpc
    → let e = received grpc addr (map_group_error grpc cache_miss) in
      (is_retry e ≡ false) × (is_cache_miss (call_error e owner) ≡ true)
unfolding root is_cache_miss
miss_seen grpc addr owner known = requester_sees grpc known addr cache_miss

module _ {T : Type 0} (grpc : Grpc) (rpc : Str → LocacheClient T) (deadline : Option ℕ) (now : ℕ)
    (events : ℕ × Option Error) (crc : Str → ℕ) (k : ℕ) (key : Str) where
  -- What one node deletes, no other finds. Where two open groups of one name, without near caches and
  -- with well-formed pickers, find a key at another node and have a client for it; that node serves an
  -- open group of the name, without a near cache, a default lifetime or a source, and its picker,
  -- well-formed, stands at its address; the three pickers have one configuration and the same members;
  -- every other node that serves the name has no near cache for it and an LRU for the key, as has the
  -- first group; and the owner's open cache has a well-formed LRU for the key: then a Delete of the first
  -- group returns without an error, and a Get of the second, at the nodes as the Delete left them, returns
  -- an error that says that the key is missing. gRPC keeps the codes of errors, the clock and the members
  -- stand still, and requests are served one after the other.
  pub get-delete_cluster :
      (g r : Group (World (Net (World T))))
      (getter getter' : Option (Str → M (World (Net (World T))) (Result Str))) (q : ℕ)
      (l : Lru Value)
      → IsGrpc grpc
      → (w : IsAsking crc k key g) → (u : IsAsking crc k key r)
      → (serving : IsServing grpc rpc deadline now events crc none g.name
          (g.world.net w.answer.owner)
          q)
      → r.name ≡ g.name
      → (picker_at (g.world.net w.answer.owner) q).self_addr ≡ w.answer.owner
      → Agrees g.world.picker (picker_at (g.world.net w.answer.owner) q)
      → Agrees g.world.picker r.world.picker
      → ((addr : Str) → addr ≢ w.answer.owner → IsCalm g.name (k ∷ key) (g.world.net addr))
      → Serves (k ∷ key) g.main_cache
      → (entered (g.world.net w.answer.owner) q).main_cache.closed ≡ false
      → backing (k ∷ key) (entered (g.world.net w.answer.owner) q).main_cache.store ≡ some l
      → Invariant.IsValid size l
      → (g' r' : Group (World (Net (World T)))) × (e : Error) × ((delete_key
              (still now (some (picker_peers grpc (connect grpc) deadline now events)) getter)
              (k ∷ key)
              g
            ≡ some (g', ok tt))
          × (get
                (still now (some (picker_peers grpc (connect grpc) deadline now events)) getter')
                (k ∷ key)
                (with_net r g'.world.net)
              ≡ some (r', err e))
          × (is_cache_miss e ≡ true))
  get-delete_cluster g r getter getter' q l known w u serving name home agree agree' calm serves
        opened backs valid =
      let (c, c', removed, (dropped, missing, _)) =
        get-delete_key (k ∷ key) now _ l opened backs valid in
      let (gs, (deleted, cache, owns)) =
        delete_owner grpc rpc deadline now events crc none g.name k key (g.world.net w.answer.owner)
          q
          (owner_of grpc rpc deadline now events crc k key none g.name g.world.picker w.answer
            (g.world.net w.answer.owner) q w.valid w.picked serving agree home)
          c removed dropped in
      let (gs', answered) =
        miss_owner grpc rpc deadline now events crc g.name k key gs q c' owns
          (ap (Cache.get (k ∷ key) now) cache ∙ missing) in
      let (g', (done, left)) =
        delete_elsewhere grpc deadline now events k key crc getter g w removed gs serves calm
          deleted in
      let (r', got) =
        missed_elsewhere grpc deadline now events k key crc getter' (with_net r g'.world.net)
          (record {
            opened = u.opened;
            near = u.near;
            valid = u.valid;
            answer = u.answer;
            picked = u.picked;
            other = u.other;
            client = u.client;
            has = u.has;
          })
          (map_group_error grpc cache_miss) gs'
          (ap (λ n. Server.get grpc n (k ∷ key) (g'.world.net u.answer.owner)) name
            ∙ ap (λ addr. Server.get grpc g.name (k ∷ key) (g'.world.net addr))
                (sym (
                  same_owner grpc rpc deadline now events crc k key g.world.picker r.world.picker
                    w.answer u.answer w.valid u.valid agree' w.picked u.picked))
            ∙ ap (Server.get grpc g.name (k ∷ key)) left
            ∙ answered)
          (miss_seen grpc u.client.addr u.answer.owner known).0 in
      (g', r', _, (done, got, (miss_seen grpc u.client.addr u.answer.owner known).1))
