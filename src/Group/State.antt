-- ===== src/Group/State.antt =====
-- The state of a group of group.go, its errors, and the calls that leave the group.
use locache.Base.{ℕ, ◌≡◌, ◌∙◌, ap, if◌then◌else◌, Option, none, some, Bool, true, false}
use locache.Base.Str.{Str}
use locache.Base.Map.{Map}
use locache.Cache.{Cache}

-- The codes of gRPC, but for OK.
pub data Code : Type 0 where
  failed_precondition not_found unavailable unknown : Code
  other_code : ℕ → Code

-- `owner_error` is the wrapping "%w: owner=%s", and `call_error` the one that names the key and the
-- owner or the source, or adds the text of an error; `status_error` is an error of gRPC's package
-- status, and `other` is any other error, of a peer, of the source or of a context.
pub data Error : Type 0 where
  key_required value_required group_closed cache_miss no_owner peer_unavailable : Error
  topology_changed not_owner : Error
  owner_error call_error : Error → Str → Error
  status_error : Code → Str → Error
  other : Str → Error

-- The sentinel that errors.Is finds under the wrappings.
unfoldable pub root : Error → Error
root (owner_error e s) = root e
root (call_error e s) = root e
root e = e

abbrev is_moved : Error → Bool
is_moved topology_changed = true
is_moved not_owner = true
is_moved e = false

-- errors.Is(err, ErrTopologyChanged) || errors.Is(err, ErrNotOwner).
unfoldable pub is_retry : Error → Bool
is_retry e = is_moved (root e)

abbrev is_miss : Error → Bool
is_miss cache_miss = true
is_miss e = false

unfoldable pub is_cache_miss : Error → Bool
is_cache_miss e = is_miss (root e)

pub data Result {ℓ} (A : Type ℓ) : Type ℓ where
  ok : A → Result A
  err : Error → Result A

pub record KeyMutationState : Type 0 where
  pub generation : ℕ
  pub refs : ℕ

pub record GroupStats : Type 0 where
  pub local_hits : ℕ
  pub local_misses : ℕ
  pub near_hits : ℕ
  pub near_misses : ℕ
  pub peer_hits : ℕ
  pub peer_misses : ℕ
  pub source_loads : ℕ
  pub source_errors : ℕ
  pub source_duration : ℕ
  pub sets : ℕ
  pub deletes : ℕ
  pub invalidation_failures : ℕ

-- `key_states` leads from a key to a pointer, and `states` from a pointer to the structure; the
-- pointers from `next_state` on are free. `world` is what lies outside: peers, source and clock.
pub record Group (W : Type 0) : Type 0 where
  pub name : Str
  pub main_cache : Cache
  pub near_cache : Option Cache
  pub near_ttl : ℕ
  pub expiration : ℕ
  pub closed : Bool
  pub stats : GroupStats
  pub owner_epoch : ℕ
  pub key_states : Map ℕ
  pub states : ℕ → KeyMutationState
  pub next_state : ℕ
  pub world : W

-- A piece of a method: `none` is a panic.
abbrev pub M : Type 0 → Type 0 → Type 0
M W A = Group W → Option (Group W × A)

module _ {W : Type 0} where
  abbrev pub pure : {A : Type 0} → A → M W A
  pure a g = some (g, a)

  infixl 5 ◌>>=◌ ◌>>◌
  abbrev pub ◌>>=◌ : {A B : Type 0} → M W A → (A → M W B) → M W B
  ◌>>=◌ m f g = elim (m g) [ none ↦ none | some (g', a) ↦ f a g' ]

  abbrev pub ◌>>◌ : {B : Type 0} → M W (Unit {0}) → M W B → M W B
  m >> k = m >>= λ _. k

  abbrev pub gets : {A : Type 0} → (Group W → A) → M W A
  gets f g = some (g, f g)

  abbrev pub modify : (Group W → Group W) → M W (Unit {0})
  modify f g = some (f g, tt)

  abbrev pub count : (GroupStats → GroupStats) → M W (Unit {0})
  count f = modify (λ g. record g { stats = f g.stats })

-- A step that returns hands its answer on.
pub >>=-some :
    {W A B : Type 0} (m : M W A) (f : A → M W B) (g g' : Group W) (a : A)
    → m g ≡ some (g', a)
    → (m >>= f) g ≡ f a g'
>>=-some {W} {A} {B} m f g g' a e = ap on_answer e
  where
    on_answer : Option (Group W × A) → Option (Group W × B)
    on_answer o = elim o [ none ↦ none | some (h, x) ↦ f x h ]

-- A step that panics ends it.
pub >>=-none :
    {W A B : Type 0} (m : M W A) (f : A → M W B) (g : Group W) → m g ≡ none → (m >>= f) g ≡ none
>>=-none {W} {A} {B} m f g e = ap on_answer e
  where
    on_answer : Option (Group W × A) → Option (Group W × B)
    on_answer o = elim o [ none ↦ none | some (h, x) ↦ f x h ]

-- A method whose test fails goes on past it.
pub else_step :
    {W A : Type 0} (b : Bool) (x y : M W A) (g : Group W) (r : Option (Group W × A))
    → b ≡ false
    → y g ≡ r
    → (if b then x else y) g ≡ r
else_step b x y g r e k = ap (λ c. (if c then x else y) g) e ∙ k

-- The answer of PickOwner; `has_peer` says that the peer is not nil.
pub record Pick : Type 0 where
  pub owner : Str
  pub has_peer : Bool
  pub is_self : Bool
  pub epoch : ℕ
  pub ok : Bool

-- A PeerPicker with its peers. Each call may change the state in any way: other calls of the group
-- run meanwhile. `wait_events` is what the select of a wait sees: so many ticks, then the timer, or
-- the error of the context.
pub record Peers (W : Type 0) : Type 0 where
  pub pick_owner : Str → M W Pick
  pub epoch_of : M W ℕ
  pub invalidate : Str → Str → Str → M W Bool
  pub peer_get : Str → Str → Str → M W (Result Str)
  pub peer_set : Str → Str → Str → Str → M W (Result (Unit {0}))
  pub peer_delete : Str → Str → Str → M W (Result Bool)
  pub wait_events : M W (ℕ × Option Error)

-- What a group calls: the clock, the peers and the getter, where they are not nil.
pub record Env (W : Type 0) : Type 0 where
  pub clock : M W ℕ
  pub peers : Option (Peers W)
  pub getter : Option (Str → M W (Result Str))
