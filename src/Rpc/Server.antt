-- ===== src/Rpc/Server.antt =====
-- server.go: the handlers of requests, on the groups of the process.
use locache.Base.{ℕ, Option, none, some, [], ◌∷◌, ◌++◌, Bool, true, false}
use locache.Base.Str.{Str}
use locache.Cache.{ByteView}
use locache.Group.State.{
  Error, failed_precondition, not_found, unavailable, cache_miss, no_owner, group_closed,
  topology_changed, not_owner, status_error, other, root, Result, ok, err, M, Env,
}
use locache.Group.Local.{get_local, set_local, delete_local, delete_owner_local}
use locache.Group.Table.{Instance, Groups, set_heap, get_group}
use locache.Rpc.{Grpc, LocacheClient}

-- What `mapGroupError` makes of an error, for the one that its wrappings end at, and its text.
abbrev pub mapped : Error → Error → Str → Error
mapped not_owner e text = status_error failed_precondition text
mapped topology_changed e text = status_error failed_precondition text
mapped no_owner e text = status_error failed_precondition text
mapped cache_miss e text = status_error not_found text
mapped group_closed e text = status_error unavailable text
mapped r e text = e

unfoldable pub map_group_error : Grpc → Error → Error
map_group_error grpc e = mapped (root e) e (grpc.text e)

-- "group %s not found".
unfoldable pub group_not_found : Str → Error
group_not_found name = other (
    (b'g' ∷ b'r' ∷ b'o' ∷ b'u' ∷ b'p' ∷ b' ' ∷ [])
    ++ (name ++ (b' ' ∷ b'n' ∷ b'o' ∷ b't' ∷ b' ' ∷ b'f' ∷ b'o' ∷ b'u' ∷ b'n' ∷ b'd' ∷ [])))

-- The answer for a result of the group.
abbrev pub reply : {A B : Type 0} → Grpc → (A → B) → Result A → Result B
reply grpc f (ok a) = ok (f a)
reply grpc f (err e) = err (map_group_error grpc e)

abbrev pub sent : {A : Type 0} → Grpc → Result A → Result A
sent grpc (ok a) = ok a
sent grpc (err e) = err (grpc.carry e)

module _ {W : Type 0} where
  abbrev pub stored :
      {A B : Type 0}
      → ℕ
      → (A → Result B)
      → Groups W
      → Option (Instance W × A)
      → Option (Groups W × Result B)
  stored p f gs none = none
  stored p f gs (some (i, a)) = some (record gs { heap = set_heap gs.heap p i }, f a)

  abbrev pub called : {A : Type 0} → (Env W → M W A) → Instance W → Option (Instance W × A)
  called m i = elim (m i.env i.state) [
    | none ↦ none
    | some (g, a) ↦ some (record { state = g; env = i.env }, a)
  ]

  -- A method of the group that the request names, and what its result is answered with.
  unfoldable pub on_group :
      {A B : Type 0}
      → Str
      → (Env W → M W A)
      → (A → Result B)
      → Groups W
      → Option (Groups W × Result B)
  on_group name m f gs = elim (get_group name gs) [
    | none ↦ some (gs, err (group_not_found name))
    | some p ↦ stored p f gs (called m (gs.heap p))
  ]

module _ {W : Type 0} (grpc : Grpc) where
  unfoldable pub get : Str → Str → Groups W → Option (Groups W × Result Str)
  get name key = on_group name (λ env. get_local env key) (reply grpc (λ (view : ByteView). view.b))

  unfoldable pub set : Str → Str → Str → Groups W → Option (Groups W × Result Str)
  set name key value = on_group name (λ env. set_local env key value) (reply grpc (λ _. value))

  -- `invalidation` is the mark in the metadata: such a request is not refused by a node that does not
  -- own the key.
  unfoldable pub delete_key : Bool → Str → Str → Groups W → Option (Groups W × Result Bool)
  delete_key true name key = on_group name (λ env. delete_local env key) (λ removed. ok removed)
  delete_key false name key =
      on_group name (λ env. delete_owner_local env key) (reply grpc (λ removed. removed))

  abbrev pub over_wire : {A : Type 0} → Option (Groups W × Result A) → Option (Groups W × Result A)
  over_wire none = none
  over_wire (some (gs, r)) = some (gs, sent grpc r)

  -- A connection to this server that delivers each request in time, once.
  abbrev pub connection : LocacheClient (Groups W)
  connection = record {
    get = λ deadline name key gs. over_wire (get name key gs);
    set = λ deadline name key value gs. over_wire (set name key value gs);
    delete_key = λ deadline mark name key gs. over_wire (delete_key mark name key gs);
  }
