-- ===== src/Store/Sharded/Routing.antt =====
-- A sharded store against the independent stores of its shards.
use locache.Base.{
  ℕ, zero, suc, ◌+◌, ◌-◌, ◌<◌, ◌≡◌, refl, sym, ◌∙◌, ap, ite, Option, none, some, List, [], ◌∷◌,
  ◌++◌, arith, length, get_elem?, set, map, ℕ_discrete,
}
use locache.Base.Bits.{bit_and-le}
use locache.Base.Str.{Str}
use locache.Store.Lru.{Lru}
use locache.Store.Lru
use locache.Store.Lru.Runs.{Call, get_at, set_at, delete_of, clean_at, clear_all, step, run}
use locache.Store.Fnv.{fnv32a}
use locache.Store.Sharded.{
  Sharded, shard_index, shard, with_shard, get, set_with_expiration, delete_key, clear, clean_from,
  tick,
}

-- The calls that change a sharded store, each with what the clock shows, on a tick to each shard.
pub data Op (V : Type 0) : Type 0 where
  get_op : Str → ℕ → Op V
  set_op : Str → Option V → ℕ → ℕ → ℕ → Op V
  delete_op : Str → Op V
  tick_op : (ℕ → ℕ) → Op V
  clear_op : Op V

-- A call with a key reaches the shard of the key alone.
abbrev pub if_home : {V : Type 0} → ℕ → ℕ → Str → Call V → List (Call V)
if_home n i key call = ite (ℕ_discrete (shard_index key n) i) (call ∷ []) []

-- What shard `i` of `n` is called with.
abbrev pub seen_by : {V : Type 0} → ℕ → ℕ → Op V → List (Call V)
seen_by n i (get_op key now) = if_home n i key (get_at key now)
seen_by n i (set_op key value expiration now later) =
    if_home n i key (set_at key value expiration now later)
seen_by n i (delete_op key) = if_home n i key (delete_of key)
seen_by n i (tick_op clock) = clean_at (clock i) ∷ []
seen_by n i clear_op = clear_all ∷ []

unfoldable pub calls_of : {V : Type 0} → ℕ → ℕ → List (Op V) → List (Call V)
calls_of n i [] = []
calls_of n i (op ∷ ops) = seen_by n i op ++ calls_of n i ops

shard_index-lt : (key : Str) (n : ℕ) → 0 < n → shard_index key n < n
unfolding shard_index
shard_index-lt key n h = omega (arith, bit_and-le (fnv32a key) (n - 1))

module _ {V : Type 0} where
  get_elem?-set :
      (l : List (Lru V)) (j i : ℕ) (c : Lru V)
      → j < length l
      → get_elem? (set l j c) i ≡ ite (ℕ_discrete j i) (some c) (get_elem? l i)
  get_elem?-set [] j i c h = elim h [ ]
  get_elem?-set (x ∷ l) zero zero c h = ground arith
  get_elem?-set (x ∷ l) zero (suc i) c h = ground arith
  get_elem?-set (x ∷ l) (suc j) zero c h = ground arith
  get_elem?-set (x ∷ l) (suc j) (suc i) c h = ground (arith, get_elem?-set l j i c)

  length-set : (l : List (Lru V)) (j : ℕ) (c : Lru V) → length (set l j c) ≡ length l
  length-set [] j c = refl
  length-set (x ∷ l) zero c = refl
  length-set (x ∷ l) (suc j) c = ap suc (length-set l j c)

  get_elem_below :
      (l : List (Lru V)) (i : ℕ) → i < length l → (c : Lru V) × (get_elem? l i ≡ some c)
  get_elem_below [] i h = elim h [ ]
  get_elem_below (x ∷ l) zero h = (x, refl)
  get_elem_below (x ∷ l) (suc i) h = get_elem_below l i (omega arith)

  -- The index of a key is in range: the key has a shard.
  pub shard_total :
      (key : Str) (s : Sharded V) → 0 < length s.shards → (c : Lru V) × (shard key s ≡ some c)
  unfolding shard
  shard_total key s h = get_elem_below s.shards _ (shard_index-lt key (length s.shards) h)

module _ {V : Type 0} (size : V → ℕ) where
  -- One call; the answer of a `Get` is beside the state, and `none` is a panic.
  unfoldable pub step_op : Op V → Sharded V → Option (Sharded V)
  step_op (get_op key now) s = elim (get size key now s) [ none ↦ none | some (s', v) ↦ some s' ]
  step_op (set_op key value expiration now later) s =
      set_with_expiration size key value expiration now later s
  step_op (delete_op key) s = elim (delete_key size key s) [ none ↦ none | some (s', b) ↦ some s' ]
  step_op (tick_op clock) s = some (tick size clock s)
  step_op clear_op s = some (clear size s)

  unfoldable pub run_ops : List (Op V) → Sharded V → Option (Sharded V)
  run_ops [] s = some s
  run_ops (op ∷ ops) s = elim (step_op op s) [ none ↦ none | some s' ↦ run_ops ops s' ]

  -- `t` has the shards of `s`, each after its own calls.
  pub record Follows (calls : ℕ → List (Call V)) (s t : Sharded V) : Type 0 where
    pub same : length t.shards ≡ length s.shards
    pub each :
        (i : ℕ) (c : Lru V)
        → get_elem? s.shards i ≡ some c
        → get_elem? t.shards i ≡ some (run size (calls i) c).0

  run-append :
      (xs ys : List (Call V)) (c : Lru V)
      → (run size (xs ++ ys) c).0 ≡ (run size ys (run size xs c).0).0
  unfolding run
  run-append [] ys c = refl
  run-append (x ∷ xs) ys c = run-append xs ys (step size x c).0

  keyed-Follows :
      (key : Str) (call : Call V) (s : Sharded V) {c : Lru V}
      → 0 < length s.shards
      → shard key s ≡ some c
      → Follows
          (λ i. if_home (length s.shards) i key call)
          s
          (with_shard key (step size call c).0 s)
  unfolding with_shard shard run
  keyed-Follows key call s {c} h at_home = record {
    same = length-set s.shards _ _;
    each = λ i d found. ground (
      arith,
      get_elem?-set s.shards (shard_index key (length s.shards)) i (step size call c).0
          (shard_index-lt key (length s.shards) h),
    );
  }

  get_elem?-clean :
      (clock : ℕ → ℕ) (j : ℕ) (l : List (Lru V)) (i : ℕ) {c : Lru V}
      → get_elem? l i ≡ some c
      → get_elem? (clean_from size clock j l) i ≡ some (Lru.cleanup_expired size (clock (j + i)) c)
  unfolding clean_from
  get_elem?-clean clock j [] i h = cc
  get_elem?-clean clock j (x ∷ l) zero h = let e : j + 0 ≡ j = omega arith in rw e (ground arith)
  get_elem?-clean clock j (x ∷ l) (suc i) h =
      let e : j + suc i ≡ suc j + i = omega arith in rw e (get_elem?-clean clock (suc j) l i h)

  length-clean :
      (clock : ℕ → ℕ) (j : ℕ) (l : List (Lru V)) → length (clean_from size clock j l) ≡ length l
  unfolding clean_from
  length-clean clock j [] = refl
  length-clean clock j (x ∷ l) = ap suc (length-clean clock (suc j) l)

  get_elem?-map :
      (f : Lru V → Lru V) (l : List (Lru V)) (i : ℕ) {c : Lru V}
      → get_elem? l i ≡ some c
      → get_elem? (map f l) i ≡ some (f c)
  get_elem?-map f [] i h = cc
  get_elem?-map f (x ∷ l) zero h = ground arith
  get_elem?-map f (x ∷ l) (suc i) h = get_elem?-map f l i h

  length-map : (f : Lru V → Lru V) (l : List (Lru V)) → length (map f l) ≡ length l
  length-map f [] = refl
  length-map f (x ∷ l) = ap suc (length-map f l)

  get_home :
      (key : Str) (now : ℕ) (s : Sharded V) {c : Lru V}
      → shard key s ≡ some c
      → get size key now s
        ≡ some (with_shard key (Lru.get size key now c).0 s, (Lru.get size key now c).1)
  unfolding get
  get_home key now s home = rw (home, get)

  delete_home :
      (key : Str) (s : Sharded V) {c : Lru V}
      → shard key s ≡ some c
      → delete_key size key s
        ≡ some (with_shard key (Lru.delete_key size key c).0 s, (Lru.delete_key size key c).1)
  unfolding delete_key
  delete_home key s home = rw (home, delete_key)

  -- Every call returns, whatever the hash of its key, and each shard is then as its own calls
  -- leave it.
  step_op-Follows :
      (op : Op V) (s : Sharded V)
      → 0 < length s.shards
      → (t : Sharded V) × (step_op op s ≡ some t)
        × Follows (λ i. seen_by (length s.shards) i op) s t
  unfolding step_op set_with_expiration tick clear run step
  step_op-Follows (get_op key now) s h =
      let (c, home) = shard_total key s h in
      (_, rw (get_home key now s home, step_op), keyed-Follows key (get_at key now) s h home)
  step_op-Follows (set_op key value expiration now later) s h =
      let (c, home) = shard_total key s h in
      (
        _,
        rw (home, set_with_expiration),
        keyed-Follows key (set_at key value expiration now later) s h home,
      )
  step_op-Follows (delete_op key) s h =
      let (c, home) = shard_total key s h in
      (_, rw (delete_home key s home, step_op), keyed-Follows key (delete_of key) s h home)
  step_op-Follows (tick_op clock) s h = (
    tick size clock s,
    refl,
    record {
      same = length-clean clock 0 s.shards;
      each = λ i c found.
          get_elem?-clean clock 0 s.shards i found
          ∙ ap (λ j. some (Lru.cleanup_expired size (clock j) c)) (omega arith);
    },
  )
  step_op-Follows clear_op s h = (
    clear size s,
    refl,
    record {
      same = length-map (Lru.clear size) s.shards;
      each = λ i c found. get_elem?-map (Lru.clear size) s.shards i found;
    },
  )

  -- From any store with a shard, any history of calls returns; each shard is then exactly what its
  -- own calls, those with its keys and those to all shards, make of it alone.
  pub run_ops-Follows :
      (ops : List (Op V)) (s : Sharded V)
      → 0 < length s.shards
      → (t : Sharded V) × (run_ops ops s ≡ some t)
        × Follows (λ i. calls_of (length s.shards) i ops) s t
  unfolding run_ops calls_of run
  run_ops-Follows [] s h = (s, refl, record { same = refl; each = λ i c found. found })
  run_ops-Follows (op ∷ ops) s h =
      let (m, first, step_follows) = step_op-Follows op s h in
      let (t, rest, follows) = run_ops-Follows ops m (rw step_follows.same h) in
      (
        t,
        rw (first, run_ops) rest,
        record {
          same = follows.same ∙ step_follows.same;
          each = λ i c found.
              follows.each i _ (step_follows.each i c found)
              ∙ rw step_follows.same (
                  ap some (
                    sym (
                      run-append (seen_by (length s.shards) i op) (calls_of (length s.shards) i ops)
                        c)));
        },
      )
