-- ===== src/Store/Sharded/Capacity.antt =====
-- What a sharded store holds, against the limit that it was made with.
use native.Mathlib.Nat.{one-le-pow, div-add-mod}
use locache.Base.{
  ℕ, zero, suc, ◌+◌, ◌/◌, ◌%◌, ◌^◌, ◌≤◌, ◌<◌, ◌≡◌, ◌⊎◌, inl, inr, refl, none, some, List, [], ◌∷◌,
  ◌++◌, true, false, arith, length, get_elem?, All, ℕ_discrete, if_pos, if_neg,
}
use locache.Base.Words.{gt64, gt64_small}
use locache.Base.Str.{Str}
use locache.Store.Options.{Options}
use locache.Store.Lru.{Lru, new_lru_internal}
use locache.Store.Lru.Spec.{weigh}
use locache.Store.Lru.Invariant.{view}
use locache.Store.Lru.Runs.{Call, Fits, run, run-spec_run}
use locache.Store.Sharded.{
  Sharded, shard_options, make_shards, with_count, new_sharded, shard_index,
}
use locache.Store.Sharded.Rounding.{choose_count_lem, IsRoomyFor}
use locache.Store.Sharded.Budget.{budget, length-make_shards, budget-with_count}
use locache.Store.Sharded.Routing.{
  Op, get_op, set_op, delete_op, tick_op, clear_op, if_home, seen_by, calls_of, run_ops,
  run_ops-Follows,
}

module _ {V : Type 0} (size : V → ℕ) where
  -- The bytes of the keys and values in the shards.
  pub stored : List (Lru V) → ℕ
  stored [] = 0
  stored (c ∷ rest) = weigh size (view c) + stored rest

  -- What a write stores fits an int64 on top of a full store.
  abbrev pub OpFits : ℕ → Op V → Type 0
  OpFits limit (set_op k (some v) expiration now later) = limit + length k + size v < 2 ^ 63
  OpFits limit (set_op k none expiration now later) = Unit
  OpFits limit (get_op k now) = Unit
  OpFits limit (delete_op k) = Unit
  OpFits limit (tick_op clock) = Unit
  OpFits limit clear_op = Unit

  All-append :
      (limit : ℕ) (xs ys : List (Call V))
      → All (Fits size limit) xs
      → All (Fits size limit) ys
      → All (Fits size limit) (xs ++ ys)
  All-append limit [] ys hx hy = hy
  All-append limit (x ∷ xs) ys hx hy = (hx.0, All-append limit xs ys hx.1 hy)

  home-Fits :
      (n i limit : ℕ) (key : Str) (call : Call V)
      → Fits size limit call
      → All (Fits size limit) (if_home n i key call)
  home-Fits n i limit key call h = elim (ℕ_discrete (shard_index key n) i) [
    | yes p ↦ rw (if_pos _ p) (h, tt)
    | no p ↦ rw (if_neg _ p) tt
  ]

  seen_by-Fits :
      (n i limit part : ℕ) (op : Op V)
      → part ≤ limit
      → OpFits limit op
      → All (Fits size part) (seen_by n i op)
  seen_by-Fits n i limit part (get_op k now) h f = home-Fits n i part k _ tt
  seen_by-Fits n i limit part (set_op k none expiration now later) h f = home-Fits n i part k _ tt
  seen_by-Fits n i limit part (set_op k (some v) expiration now later) h f =
      home-Fits n i part k _ (omega arith)
  seen_by-Fits n i limit part (delete_op k) h f = home-Fits n i part k _ tt
  seen_by-Fits n i limit part (tick_op clock) h f = (tt, tt)
  seen_by-Fits n i limit part clear_op h f = (tt, tt)

  calls_of-Fits :
      (n i limit part : ℕ) (ops : List (Op V))
      → part ≤ limit
      → All (OpFits limit) ops
      → All (Fits size part) (calls_of n i ops)
  unfolding calls_of
  calls_of-Fits n i limit part [] h f = tt
  calls_of-Fits n i limit part (op ∷ ops) h f =
      All-append part (seen_by n i op) (calls_of n i ops) (seen_by-Fits n i limit part op h f.0)
        (calls_of-Fits n i limit part ops h f.1)

  get_elem?-make_shards :
      (opts : Options) (count j rounds i : ℕ) {c : Lru V}
      → get_elem? (make_shards opts count j rounds) i ≡ some c
      → c ≡ new_lru_internal (shard_options opts count (j + i)) false
  unfolding make_shards
  get_elem?-make_shards opts count j zero i h = cc
  get_elem?-make_shards opts count j (suc rounds) zero h =
      let e : j + 0 ≡ j = omega arith in rw e (ground arith)
  get_elem?-make_shards opts count j (suc rounds) (suc i) h =
      let e : j + suc i ≡ suc j + i = omega arith in
      rw e (get_elem?-make_shards opts count (suc j) rounds i h)

  -- Shards that each stay within their own limit stay together within the sum of the limits.
  stored-le-budget :
      (l m : List (Lru V))
      → length m ≡ length l
      → ((i : ℕ) (c : Lru V)
          → get_elem? l i ≡ some c
          → (d : Lru V) × (get_elem? m i ≡ some d) × (weigh size (view d) ≤ c.max_bytes))
      → stored m ≤ budget l
  unfolding stored budget
  stored-le-budget [] [] e h = omega arith
  stored-le-budget [] (d ∷ m) e h = absurd (omega arith)
  stored-le-budget (c ∷ l) [] e h = absurd (omega arith)
  stored-le-budget (c ∷ l) (d ∷ m) e h =
      let (d', at, fits) = h 0 c refl in
      let here : weigh size (view d) ≤ c.max_bytes = ground arith in
      omega (arith, stored-le-budget l m (omega arith) (λ i x found. h (suc i) x found))

-- A quotient and its rest together are within the number.
quotient_rest : (n d : ℕ) → 0 < d → n / d + n % d ≤ n
quotient_rest n d h = grind (arith, div-add-mod n d)

quotient_pos : (n d : ℕ) → 0 < n → (d ≡ 1) ⊎ (1024 ≤ n / d) → 0 < n / d
quotient_pos n d pos (inl one) = rw one (omega arith)
quotient_pos n d pos (inr room) = omega arith

room :
    (opts : Options) (count : ℕ)
    → gt64 opts.max_bytes 0 ≡ true
    → IsRoomyFor opts count
    → (count ≡ 1) ⊎ (1024 ≤ opts.max_bytes / count)
room opts count limited (inl free) = cc
room opts count limited (inr roomy) = roomy

-- Each part of a roomy budget is positive, and within the whole.
part-bounds :
    (opts : Options) (count i : ℕ)
    → 0 < count
    → gt64 opts.max_bytes 0 ≡ true
    → opts.max_bytes < 2 ^ 63
    → (count ≡ 1) ⊎ (1024 ≤ opts.max_bytes / count)
    → ((shard_options opts count i).max_bytes ≤ opts.max_bytes)
      × (0 < (shard_options opts count i).max_bytes)
unfolding shard_options
part-bounds opts count i pos limited word roomy =
    let some_bytes : 0 < opts.max_bytes =
      ground (arith, gt64_small opts.max_bytes 0 word (omega arith)) in
    let sum = quotient_rest opts.max_bytes count pos in
    let share = quotient_pos opts.max_bytes count some_bytes roomy in rw limited (ground arith)

module _ {V : Type 0} (size : V → ℕ) where
  -- One shard stays within its own limit.
  shard_bounded :
      (opts : Options) (calls : List (Call V)) (c : Lru V)
      → c ≡ new_lru_internal opts false
      → opts.max_bytes < 2 ^ 63
      → 0 < opts.max_bytes
      → All (Fits size opts.max_bytes) calls
      → weigh size (view (run size calls c).0) ≤ c.max_bytes
  unfolding new_lru_internal
  shard_bounded opts calls c made word pos fits = rw made (
      (run-spec_run size opts false calls word
        (ground (arith, gt64_small opts.max_bytes 0 word (omega arith))) fits).3)

  -- From a new store with a positive limit and a requested count up to 2^62, any history of calls
  -- whose keys and values fit an int64 on top of a full store returns, and the bytes in all the
  -- shards together stay within the limit.
  pub run_ops-bounded :
      (opts : Options) (ops : List (Op V))
      → opts.shard_count ≤ 2 ^ 62
      → opts.max_bytes < 2 ^ 63
      → gt64 opts.max_bytes 0 ≡ true
      → All (OpFits size opts.max_bytes) ops
      → (s : Sharded V) × (t : Sharded V) × (new_sharded opts ≡ some s)
        × (run_ops size ops s ≡ some t)
        × (stored size t.shards ≤ opts.max_bytes)
  unfolding new_sharded with_count
  run_ops-bounded opts ops requested word limited fits =
      let (j, chosen, roomy) = choose_count_lem opts requested in
      let count = 2 ^ j in
      let pos = one-le-pow j 2 (omega arith) in
      let shards = make_shards opts count 0 count in
      let made = length-make_shards V opts count 0 count in
      let (t, runs, follows) = run_ops-Follows size ops (with_count opts count) (rw made pos) in
      (
        with_count opts count,
        t,
        rw (chosen, new_sharded),
        runs,
        omega (
          arith,
          budget-with_count V opts count pos limited,
          stored-le-budget size shards t.shards follows.same λ i c found.
              let part = shard_options opts count (0 + i) in
              let (low, some_bytes) =
                part-bounds opts count (0 + i) pos limited word (room opts count limited roomy) in
              (
                _,
                follows.each i c found,
                shard_bounded part _ c (get_elem?-make_shards size opts count 0 count i found)
                    (omega arith) some_bytes
                    (calls_of-Fits size (length shards) i opts.max_bytes part.max_bytes ops low
                      fits),
              ),
        ),
      )
