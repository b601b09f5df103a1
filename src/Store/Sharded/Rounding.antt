-- ===== src/Store/Sharded/Rounding.antt =====
-- The loops of store/sharded_lru.go that settle the number of shards: when they end, and with what.
use native.Mathlib.Nat.{pow-suc, one-le-pow, pow-le-pow_right}
use locache.Base.{
  ℕ, zero, suc, ◌+◌, ◌*◌, ◌/◌, ◌%◌, ◌^◌, ◌≤◌, ◌<◌, ◌≡◌, ◌⊎◌, inl, inr, refl, ◌∙◌, ap, none, some,
  true, false, ◌&&◌, ltb, if◌then◌else◌, arith, Bool-cases, dec_lt,
}
use locache.Base.Words.{gt64, gt64_small}
use locache.Store.Options.{Options}
use locache.Store.Sharded.Count.{
  double_until, next_power_of_two, halve_while, rounds, requested, choose_count,
}

double_until_more :
    (fuel n p : ℕ)
    → gt64 n p ≡ true
    → double_until (suc fuel) n p ≡ double_until fuel n (p * 2 % 2 ^ 64)
unfolding double_until
double_until_more fuel n p more = rw (more, double_until)

double_until_lem :
    (fuel k n : ℕ)
    → k + fuel ≡ 64
    → n ≤ 2 ^ 62
    → 2 ^ k < 2 * n
    → (j : ℕ) × (double_until fuel n (2 ^ k) ≡ some (2 ^ j)) × (n ≤ 2 ^ j) × (2 ^ j < 2 * n)
unfolding double_until
double_until_lem zero k n e small low =
    let full : k ≡ 64 = omega arith in
    absurd (let low' : 2 ^ 64 < 2 * n = rw full at low in omega arith)
double_until_lem (suc fuel) k n e small low = elim (Bool-cases (gt64 n (2 ^ k))) [
  | inr done ↦ (
    k,
    rw (done, double_until),
    ground (arith, gt64_small n (2 ^ k) (omega arith) (omega arith)),
    low,
  )
  | inl more ↦
      let below : 2 ^ k < n = ground (arith, gt64_small n (2 ^ k) (omega arith) (omega arith)) in
      let next : 2 ^ k * 2 % 2 ^ 64 ≡ 2 ^ suc k = omega (arith, pow-suc 2 k) in
      let (j, runs, high, tight) =
        double_until_lem fuel (suc k) n (omega arith) small (omega (arith, pow-suc 2 k)) in
      (j, double_until_more fuel n (2 ^ k) more ∙ ap (double_until fuel n) next ∙ runs, high, tight)
]

-- For a count from 1 to 2^62, `nextPowerOfTwo` ends within 64 tests, with the least power of two
-- that is not below the count.
pub next_power_of_two_least :
    (n : ℕ)
    → 0 < n
    → n ≤ 2 ^ 62
    → (j : ℕ) × (next_power_of_two rounds n ≡ some (2 ^ j)) × (n ≤ 2 ^ j) × (2 ^ j < 2 * n)
unfolding next_power_of_two
next_power_of_two_least n pos small = elim (Bool-cases (gt64 n 1)) [
  | inr one ↦ (0, rw one, ground (arith, gt64_small n 1 (omega arith) (omega arith)), omega arith)
  | inl many ↦
      let (j, runs, high, tight) = double_until_lem rounds 0 n refl small (omega arith) in
      (j, ap (λ b. if b then double_until rounds n 1 else some 1) many ∙ runs, high, tight)
]

-- From a pattern that no doubling brings up to the count, the loop never ends.
double_until_zero : (fuel n : ℕ) → gt64 n 0 ≡ true → double_until fuel n 0 ≡ none
unfolding double_until
double_until_zero zero n h = refl
double_until_zero (suc fuel) n h = double_until_more fuel n 0 h ∙ double_until_zero fuel n h

double_until_half : (fuel n : ℕ) → n < 2 ^ 63 → 0 < n → double_until fuel n (2 ^ 63) ≡ none
unfolding double_until gt64
double_until_half zero n h pos = refl
double_until_half (suc fuel) n h pos =
    double_until_more fuel n (2 ^ 63) (ground arith) ∙ double_until_zero fuel n (ground arith)

double_until_diverges :
    (fuel k n : ℕ)
    → k ≤ 62
    → 2 ^ k ≤ 2 ^ 62
    → 2 ^ 62 < n
    → n < 2 ^ 63
    → double_until fuel n (2 ^ k) ≡ none
unfolding double_until
double_until_diverges zero k n h low big small = refl
double_until_diverges (suc fuel) k n h low big small =
    double_until_more fuel n (2 ^ k) (ground (arith, gt64_small n (2 ^ k))) ∙ elim (dec_lt k 62) [
      | yes less ↦
          ap (double_until fuel n) (omega (arith, pow-suc 2 k))
          ∙ double_until_diverges fuel (suc k) n less (pow-le-pow_right (omega arith) less) big
              small
      | no last ↦
          let e : k ≡ 62 = omega arith in
          ap (λ i. double_until fuel n (2 ^ i * 2 % 2 ^ 64)) e
          ∙ double_until_half fuel n small (omega arith)
    ]

-- For a count above 2^62 the doubled number wraps to -2^63 and then to 0, and `nextPowerOfTwo`
-- never ends: no number of rounds gives an answer.
pub next_power_of_two_diverges :
    (fuel n : ℕ) → 2 ^ 62 < n → n < 2 ^ 63 → next_power_of_two fuel n ≡ none
unfolding next_power_of_two
next_power_of_two_diverges fuel n big small =
    let many : gt64 n 1 ≡ true = ground (arith, gt64_small n 1) in
    ap (λ b. if b then double_until fuel n 1 else some 1) many
    ∙ double_until_diverges fuel 0 n (omega arith) (omega arith) big small

halve_while_more :
    (fuel budget count : ℕ)
    → (ltb 1 count && ltb (budget / count) 1024) ≡ true
    → halve_while (suc fuel) budget count ≡ halve_while fuel budget (count / 2)
unfolding halve_while
halve_while_more fuel budget count h = rw (h, halve_while)

halve_while_done :
    (fuel budget count : ℕ)
    → (ltb 1 count && ltb (budget / count) 1024) ≡ false
    → halve_while (suc fuel) budget count ≡ count
unfolding halve_while
halve_while_done fuel budget count h = rw (h, halve_while)

-- The test of the halving loop fails: one shard, or 1 KiB for each.
abbrev pub IsRoomy : ℕ → ℕ → Type 0
IsRoomy budget count = (count ≡ 1) ⊎ (1024 ≤ budget / count)

halve_while_lem :
    (fuel k budget : ℕ)
    → k < fuel
    → (j : ℕ) × (halve_while fuel budget (2 ^ k) ≡ 2 ^ j) × (j ≤ k) × IsRoomy budget (2 ^ j)
halve_while_lem zero k budget h = elim h [ ]
halve_while_lem (suc fuel) zero budget h =
    (0, halve_while_done fuel budget 1 refl, omega arith, inl refl)
halve_while_lem (suc fuel) (suc k) budget h =
    elim (Bool-cases (ltb 1 (2 ^ suc k) && ltb (budget / 2 ^ suc k) 1024)) [
      | inr done ↦ (
        suc k,
        halve_while_done fuel budget (2 ^ suc k) done,
        omega arith,
        inr (ground (arith, pow-suc 2 k, one-le-pow k 2 (omega arith))),
      )
      | inl more ↦
          let (j, runs, low, roomy) = halve_while_lem fuel k budget (omega arith) in
          (
            j,
            halve_while_more fuel budget (2 ^ suc k) more
                ∙ ap (halve_while fuel budget) (omega (arith, pow-suc 2 k))
                ∙ runs,
            omega arith,
            roomy,
          )
    ]

exponent_small : (j n : ℕ) → 2 ^ j < n → n ≤ 2 ^ 63 → j < 63
exponent_small j n h small = elim (dec_lt j 63) [
  | yes low ↦ low
  | no high ↦
      absurd (omega (arith, pow-le-pow_right {n = 2} (omega arith) {i = 63} {j = j} (omega arith)))
]

requested_bounds :
    (opts : Options) → opts.shard_count ≤ 2 ^ 62 → (0 < requested opts) × (requested opts ≤ 2 ^ 62)
unfolding requested gt64
requested_bounds opts h = ground arith

-- Without a limit on the bytes a store is roomy at any number of shards.
abbrev pub IsRoomyFor : Options → ℕ → Type 0
IsRoomyFor opts count = (gt64 opts.max_bytes 0 ≡ false) ⊎ IsRoomy opts.max_bytes count

-- For a requested count up to 2^62 the construction settles on a power of two; under a positive limit
-- that leaves one shard, or at least 1 KiB for each.
pub choose_count_lem :
    (opts : Options)
    → opts.shard_count ≤ 2 ^ 62
    → (j : ℕ) × (choose_count opts ≡ some (2 ^ j)) × IsRoomyFor opts (2 ^ j)
unfolding choose_count
choose_count_lem opts h =
    let (pos, small) = requested_bounds opts h in
    let (j, runs, high, tight) = next_power_of_two_least (requested opts) pos small in
    let (i, halved, low, roomy) =
      halve_while_lem rounds j opts.max_bytes
        (omega (arith, exponent_small j (2 * requested opts) tight (omega arith))) in
    elim (Bool-cases (gt64 opts.max_bytes 0)) [
      | inl limited ↦ (i, rw (runs, choose_count) (rw limited (ap some halved)), inr roomy)
      | inr free ↦ (j, rw (runs, choose_count) (rw free), inl free)
    ]
