-- ===== src/Group/Table.antt =====
-- The life of groups in group.go: the table of groups by name, and the groups that it points to.
pub mod Publish
pub mod Laws
pub mod Ends
mod Tests
use locache.Base.{
  ℕ, suc, Option, none, some, List, [], ◌∷◌, map, Bool, true, false, not, ◌||◌, ◌==◌, if◌then◌else◌,
  ite, ℕ_discrete,
}
use locache.Base.Words.{gt64}
use locache.Base.Str.{Str}
use locache.Base.Map.{Map, lookup, insert, delete}
use locache.Cache.{Cache, CacheOptions, default_cache_options, new_cache}
use locache.Cache
use locache.Group.State.{Result, GroupStats, Group, M, Peers, Env}
use locache.Group.Local.{is_pointer}

-- A group with the peers, the source and the clock that it calls.
pub record Instance (W : Type 0) : Type 0 where
  pub state : Group W
  pub env : Env W

-- The variable `groups`, and what its pointers lead to; those from `next` on are free.
pub record Groups (W : Type 0) : Type 0 where
  pub table : Map ℕ
  pub heap : ℕ → Instance W
  pub next : ℕ

pub data GroupOption (W : Type 0) : Type 0 where
  with_expiration : ℕ → GroupOption W
  with_peers : Option (Peers W) → GroupOption W
  with_cache_options : CacheOptions → GroupOption W
  with_near_cache : ℕ → ℕ → GroupOption W

-- What the options set, before the group has its main cache.
pub record Draft (W : Type 0) : Type 0 where
  pub main_cache : Option Cache
  pub near_cache : Option Cache
  pub near_ttl : ℕ
  pub expiration : ℕ
  pub peers : Option (Peers W)

abbrev zero_stats : GroupStats
zero_stats = record {
  local_hits = 0;
  local_misses = 0;
  near_hits = 0;
  near_misses = 0;
  peer_hits = 0;
  peer_misses = 0;
  source_loads = 0;
  source_errors = 0;
  source_duration = 0;
  sets = 0;
  deletes = 0;
  invalidation_failures = 0;
}

-- The cache of `NewGroup`, if no option made one.
unfoldable pub main_or_new : ℕ → Option Cache → Option Cache
main_or_new cache_bytes (some c) = some c
main_or_new cache_bytes none = new_cache (
    if gt64 cache_bytes 0
    then record default_cache_options { max_bytes = cache_bytes }
    else default_cache_options)

module _ {W : Type 0} where
  -- No result where the construction of a cache does not end.
  unfoldable pub apply_option : GroupOption W → Draft W → Option (Draft W)
  apply_option (with_expiration d) g = some (record g { expiration = d })
  apply_option (with_peers p) g = some (record g { peers = p })
  apply_option (with_cache_options opts) g = elim (new_cache opts) [
    | none ↦ none
    | some c ↦ some (record g { main_cache = some c })
  ]
  apply_option (with_near_cache max_bytes ttl) g =
      if not (gt64 max_bytes 0) || not (gt64 ttl 0)
      then some g
      else elim (new_cache (record default_cache_options { max_bytes = max_bytes })) [
        | none ↦ none
        | some c ↦ some (record g { near_cache = some c; near_ttl = ttl })
      ]

  unfoldable pub apply_options : List (GroupOption W) → Draft W → Option (Draft W)
  apply_options [] g = some g
  apply_options (o ∷ rest) g = elim (apply_option o g) [
    | none ↦ none
    | some g' ↦ apply_options rest g'
  ]

  abbrev pub set_heap : (ℕ → Instance W) → ℕ → Instance W → ℕ → Instance W
  set_heap f p i q = ite (ℕ_discrete p q) i (f q)

  abbrev pub shut : Group W → Group W
  shut g = record g {
    closed = true;
    main_cache = Cache.close g.main_cache;
    near_cache = elim g.near_cache [ none ↦ none | some c ↦ some (Cache.close c) ];
  }

  -- `Close`: the entry goes only where it is this group's.
  unfoldable pub close : ℕ → Groups W → Groups W
  close p gs =
      let i = gs.heap p in
      if i.state.closed then gs else record gs {
        heap = set_heap gs.heap p (record { state = shut i.state; env = i.env });
        table =
            if is_pointer p (lookup i.state.name gs.table)
            then delete i.state.name gs.table
            else gs.table;
      }

  -- A group of its own pointer enters the table, and then the one it replaces is closed.
  unfoldable pub publish : Str → Instance W → Groups W → Groups W
  publish name i gs =
      let gs' = record gs {
        table = insert name gs.next gs.table;
        heap = set_heap gs.heap gs.next i;
        next = suc gs.next;
      } in
      elim (lookup name gs.table) [ none ↦ gs' | some old ↦ close old gs' ]

  abbrev pub instance_of :
      Str → M W ℕ → Option (Str → M W (Result Str)) → W → Draft W → Cache → Instance W
  instance_of name clock getter world d c = record {
    state = record {
      name = name;
      main_cache = c;
      near_cache = d.near_cache;
      near_ttl = d.near_ttl;
      expiration = d.expiration;
      closed = false;
      stats = zero_stats;
      owner_epoch = 0;
      key_states = [];
      states = λ p. record { generation = 0; refs = 0 };
      next_state = 0;
      world = world;
    };
    env = record { clock = clock; peers = d.peers; getter = getter };
  }

  -- `NewGroup`, for what lies outside the group; the result has the pointer of the group.
  unfoldable pub new_group :
      Str
      → ℕ
      → M W ℕ
      → Option (Str → M W (Result Str))
      → W
      → List (GroupOption W)
      → Groups W
      → Option (Groups W × ℕ)
  new_group name cache_bytes clock getter world opts gs =
      elim (apply_options opts (record {
        main_cache = none;
        near_cache = none;
        near_ttl = 0;
        expiration = 0;
        peers = none;
      })) [
        | none ↦ none
        | some d ↦ elim (main_or_new cache_bytes d.main_cache) [
          | none ↦ none
          | some c ↦ some (publish name (instance_of name clock getter world d c) gs, gs.next)
        ]
      ]

  unfoldable pub get_group : Str → Groups W → Option ℕ
  get_group name gs = lookup name gs.table

  -- A second call panics.
  unfoldable pub register_peers : Peers W → Instance W → Option (Instance W)
  register_peers p i = elim i.env.peers [
    | some _ ↦ none
    | none ↦ some (record { state = i.state; env = record (i.env) { peers = some p } })
  ]

  unfoldable pub clear : Group W → Group W
  clear g = if g.closed then g else record g {
    main_cache = Cache.clear g.main_cache;
    near_cache = elim g.near_cache [ none ↦ none | some c ↦ some (Cache.clear c) ];
  }

  unfoldable pub list_groups : Groups W → List Str
  list_groups gs = map (λ e. e.0) gs.table

  unfoldable pub destroy_group : Str → Groups W → Groups W × Bool
  destroy_group name gs = elim (lookup name gs.table) [
    | none ↦ (gs, false)
    | some p ↦ (close p gs, true)
  ]

  unfoldable pub close_each : List ℕ → Groups W → Groups W
  close_each [] gs = gs
  close_each (p ∷ rest) gs = close_each rest (close p gs)

  unfoldable pub destroy_all_groups : Groups W → Groups W
  destroy_all_groups gs = close_each (map (λ e. e.1) gs.table) gs

-- The map that `Stats` makes; the average is a fraction, and stands there only for a load.
pub record Report : Type 0 where
  pub name : Str
  pub closed : Bool
  pub owner_ttl : ℕ
  pub near_ttl : ℕ
  pub read_through : Bool
  pub counters : GroupStats
  pub average_load : Option (ℕ × ℕ)
  pub owner_cache : Cache.Stats
  pub near_cache : Option Cache.Stats

unfoldable pub stats : {W : Type 0} → Instance W → Report
stats i = record {
  name = i.state.name;
  closed = i.state.closed;
  owner_ttl = i.state.expiration;
  near_ttl = i.state.near_ttl;
  read_through = elim i.env.getter [ none ↦ false | some _ ↦ true ];
  counters = i.state.stats;
  average_load =
      if gt64 i.state.stats.source_loads 0
      then some (i.state.stats.source_duration, i.state.stats.source_loads)
      else none;
  owner_cache = Cache.stats i.state.main_cache;
  near_cache = elim i.state.near_cache [ none ↦ none | some c ↦ some (Cache.stats c) ];
}
