-- ===== src/Store/Tests.antt =====
-- Runs of the stores at concrete inputs, and the theorems at inputs that meet their hypotheses.
use mathlib.Core.List.{Perm}
use locache.Base.{
  ℕ, ◌+◌, ◌^◌, ◌≤◌, ◌<◌, ◌≡◌, ◌⊎◌, refl, none, some, List, [], ◌∷◌, true, false, arith, length, All,
  ℕ_discrete, retain,
}
use locache.Base.Words.{gt64, add64, sub64}
use locache.Base.Str.{Str, str_dec}
use locache.Base.Bits.{IsPowerOfTwo}
use locache.Base.Map.{lookup, insert, delete}
use locache.Store.Options.{Options}
use locache.Store.Lru.Elems.{find_ref, remove_ref, set_value, move_to_back, find_key}
use locache.Store.Lru.{
  Lru, get, delete_key, set_with_expiration, evict_locked, new_lru_internal, default_interval,
  find_elem, elem_size, remove_element, sweep, over_budget, evict_front, with_deadline, store_value,
  clear, clear_calls, close,
}
use locache.Store.Lru.Spec.{live, read, answer, weigh, trim, write}
use locache.Store.Lru.Invariant.{IsValid, view, entries}
use locache.Store.Lru.Reads
use locache.Store.Lru.Evict
use locache.Store.Lru.Writes
use locache.Store.Lru.Writes.{deadline_of}
use locache.Store.Lru.Runs.{Call, get_at, set_at, step, run, spec_run, Fits, run-spec_run}
use locache.Store.Lru.Promises
use locache.Store.Lru.Callbacks
use locache.Store.Lru.Callbacks.{account}
use locache.Store.Sharded.{Sharded, new_sharded, with_count, make_shards}
use locache.Store.Sharded.Count.{choose_count, next_power_of_two, rounds}
use locache.Store.Sharded.Rounding
use locache.Store.Sharded.Rounding.{IsRoomyFor}
use locache.Store.Sharded.Budget
use locache.Store.Sharded.Budget.{budget}
use locache.Store.Sharded.Routing.{
  Op, get_op, set_op, tick_op, run_ops, Follows, calls_of, run_ops-Follows,
}
use locache.Store.Sharded.Capacity
use locache.Store.Sharded.Capacity.{OpFits, stored}

-- Everything that a run of a store computes with.
program : Unit {0}
unfolding str_dec ℕ_discrete lookup insert delete gt64 add64 sub64 find_ref remove_ref set_value
    move_to_back find_key get set_with_expiration delete_key evict_locked new_lru_internal
    default_interval find_elem elem_size remove_element sweep over_budget evict_front with_deadline
    store_value clear clear_calls close step run entries retain
program = tt

-- A value is a number, and its own size.
abbrev size : ℕ → ℕ
size v = v

abbrev key_a : Str
key_a = 97 ∷ []

abbrev key_b : Str
key_b = 98 ∷ []

abbrev opts : Options
opts = record { max_bytes = 10; shard_count = 4; cleanup_interval = 0; on_evicted = true }

-- `a` lives until 105, `b` has no deadline.
abbrev calls : List (Call ℕ)
calls = set_at key_a (some 3) 5 100 100 ∷ set_at key_b (some 4) 0 101 101 ∷ get_at key_a 102 ∷ []

abbrev stocked : Lru ℕ
stocked = (run size calls (new_lru_internal opts false)).0

-- The read moved `a` behind `b`.
stocked_order :
    (view stocked
      ≡ record { key = key_b; value = 4; deadline = none }
        ∷ record { key = key_a; value = 3; deadline = some 105 }
        ∷ [])
    × (stocked.used_bytes ≡ 9)
unfolding program
stocked_order = (refl, refl)

-- A third value pushes `b` out, and the callback hears of it.
stocked_full :
    (view (set_with_expiration size (99 ∷ []) (some 2) 0 103 103 stocked)
      ≡ record { key = key_a; value = 3; deadline = some 105 }
        ∷ record { key = 99 ∷ []; value = 2; deadline = none }
        ∷ [])
    × ((set_with_expiration size (99 ∷ []) (some 2) 0 103 103 stocked).log ≡ (key_b, 4) ∷ [])
unfolding program
stocked_full = (refl, refl)

-- At 105 the deadline of `a` has come.
stocked_expired : (get size key_a 105 stocked).1 ≡ none
unfolding program
stocked_expired = refl

stocked-view :
    view stocked
    ≡ record { key = key_b; value = 4; deadline = none }
      ∷ record { key = key_a; value = 3; deadline = some 105 }
      ∷ []
unfolding program
stocked-view = refl

calls_fit : All (Fits size 10) calls
calls_fit = omega arith

stocked-IsValid : IsValid size stocked
unfolding gt64
stocked-IsValid = (run-spec_run size opts false calls (omega arith) refl calls_fit).0

small_weight : weigh size (view stocked) + 1 + 2 < 2 ^ 63
unfolding weigh program
small_weight = omega arith

run-spec_run_example :
    let after = run size calls (new_lru_internal opts false) in
    let ideal = spec_run size 10 calls [] in
    IsValid size after.0
    × (view after.0 ≡ ideal.0)
    × (after.1 ≡ ideal.1)
    × (weigh size (view after.0) ≤ 10)
unfolding gt64
run-spec_run_example = run-spec_run size opts false calls (omega arith) refl calls_fit

get-set_with_expiration_example :
    (get size key_a 109 (set_with_expiration size key_a (some 2) 7 103 103 stocked)).1 ≡ some 2
unfolding program
get-set_with_expiration_example =
    Promises.get-set_with_expiration size key_a 2 7 103 103 stocked stocked-IsValid (omega arith)
      small_weight 109 (omega arith) refl refl

get-set_with_expiration_ne_example :
    let after = set_with_expiration size key_a (some 2) 7 103 103 stocked in
    ((get size key_b 109 after).1 ≡ none)
    ⊎ ((get size key_b 109 after).1 ≡ (get size key_b 109 stocked).1)
unfolding program
get-set_with_expiration_ne_example =
    Promises.get-set_with_expiration_ne size key_a 2 7 103 103 stocked stocked-IsValid (omega arith)
      small_weight key_b 109 (ground arith)

evict_locked-trim_example :
    view (evict_locked size 105 stocked) ≡ trim size 10 (live 105 (view stocked))
unfolding weigh program
evict_locked-trim_example =
    Evict.evict_locked-trim size 105 stocked stocked-IsValid (omega arith) (omega arith)

set_with_expiration-write_example :
    view (set_with_expiration size key_a (some 2) 7 103 103 stocked)
    ≡ write size 10
        (record { key = key_a; value = 2; deadline = deadline_of 7 103 })
        103
        (view stocked)
unfolding program
set_with_expiration-write_example =
    Writes.set_with_expiration-write size key_a 2 7 103 103 stocked stocked-IsValid (omega arith)
      small_weight

get-read_example :
    (view (get size key_a 105 stocked).0 ≡ read key_a 105 (view stocked))
    × ((get size key_a 105 stocked).1 ≡ answer key_a 105 (view stocked))
get-read_example = Reads.get-read size key_a 105 stocked stocked-IsValid

account-evict_locked_example : Perm (account (evict_locked size 105 stocked)) (account stocked)
unfolding program
account-evict_locked_example = Callbacks.account-evict_locked size 105 stocked stocked-IsValid refl

account-delete_key_example : Perm (account (delete_key size key_a stocked).0) (account stocked)
unfolding program
account-delete_key_example = Callbacks.account-delete_key size key_a stocked stocked-IsValid refl

-- A store of 4 KiB asked for 5 shards: 8 would have 512 bytes each, 4 have 1 KiB.
abbrev wide : Options
wide = record { max_bytes = 4098; shard_count = 5; cleanup_interval = 0; on_evicted = false }

wide_count : choose_count wide ≡ some 4
unfolding choose_count gt64 rounds
wide_count = refl

abbrev ops : List (Op ℕ)
ops = set_op key_a (some 3) 5 100 100 ∷ tick_op (λ i. 103 + i) ∷ get_op key_a 104 ∷ []

run_ops-bounded_example :
    (s : Sharded ℕ) × (t : Sharded ℕ) × (new_sharded wide ≡ some s)
    × (run_ops size ops s ≡ some t)
    × (stored size t.shards ≤ 4098)
unfolding gt64
run_ops-bounded_example =
    Capacity.run_ops-bounded size wide ops (omega arith) (omega arith) refl (omega arith)

run_ops-Follows_example :
    (t : Sharded ℕ) × (run_ops size ops (with_count wide 4) ≡ some t)
    × Follows size (λ i. calls_of 4 i ops) (with_count wide 4) t
unfolding with_count make_shards
run_ops-Follows_example = run_ops-Follows size ops (with_count wide 4) (omega arith)

new_sharded-budget_example :
    (s : Sharded ℕ) × (new_sharded wide ≡ some s)
    × IsPowerOfTwo (length s.shards)
    × (budget s.shards ≡ 4098)
    × ((length s.shards ≡ 1) ⊎ All (λ (c : Lru ℕ). 1024 ≤ c.max_bytes) s.shards)
unfolding gt64
new_sharded-budget_example = Budget.new_sharded-budget ℕ wide (omega arith) refl

next_power_of_two_diverges_example : next_power_of_two 70 (2 ^ 62 + 1) ≡ none
next_power_of_two_diverges_example =
    Rounding.next_power_of_two_diverges 70 (2 ^ 62 + 1) (omega arith) (omega arith)
