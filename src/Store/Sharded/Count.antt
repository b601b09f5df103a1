-- ===== src/Store/Sharded/Count.antt =====
-- The number of shards in store/sharded_lru.go: the power of two that `newShardedLRU` settles on.
use locache.Base.{
  ℕ, zero, suc, ◌*◌, ◌/◌, ◌%◌, ◌^◌, Option, none, some, true, false, ◌&&◌, ltb, if◌then◌else◌,
}
use locache.Base.Words.{gt64}
use locache.Store.Options.{Options}

-- The loop of `nextPowerOfTwo`, on int: `p <<= 1` wraps. Without fuel there is no answer.
unfoldable pub double_until : ℕ → ℕ → ℕ → Option ℕ
double_until zero n p = none
double_until (suc fuel) n p = elim (gt64 n p) [
  | true ↦ double_until fuel n (p * 2 % 2 ^ 64)
  | false ↦ some p
]

unfoldable pub next_power_of_two : ℕ → ℕ → Option ℕ
unfolding double_until
next_power_of_two fuel n = if gt64 n 1 then double_until fuel n 1 else some 1

-- The loop that halves the count while a shard would have less than 1 KiB.
unfoldable pub halve_while : ℕ → ℕ → ℕ → ℕ
halve_while zero budget count = count
halve_while (suc fuel) budget count = elim (ltb 1 count && ltb (budget / count) 1024) [
  | true ↦ halve_while fuel budget (count / 2)
  | false ↦ count
]

-- Each loop has at most 63 rounds where it ends at all.
abbrev pub rounds : ℕ
rounds = 64

unfoldable pub requested : Options → ℕ
requested opts = if gt64 opts.shard_count 0 then opts.shard_count else 16

unfoldable pub choose_count : Options → Option ℕ
unfolding next_power_of_two halve_while requested
choose_count opts = elim (next_power_of_two rounds (requested opts)) [
  | none ↦ none
  | some count ↦
      if gt64 opts.max_bytes 0 then some (halve_while rounds opts.max_bytes count) else some count
]
