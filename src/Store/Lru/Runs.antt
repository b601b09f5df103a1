-- ===== src/Store/Lru/Runs.antt =====
-- Whole histories of calls of store/lru.go against the sequence of entries.
use locache.Base.{
  ℕ, ◌+◌, ◌^◌, ◌≤◌, ◌<◌, ◌≡◌, refl, ◌∙◌, ap, ap₂, Option, none, some, List, [], ◌∷◌, arith, Bool,
  true, false, if◌then◌else◌, length, All,
}
use locache.Base.Words.{gt64}
use locache.Base.Str.{Str}
use locache.Base.Map.{lookup}
use locache.Store.Options.{Options}
use locache.Store.Lru.Elems.{find_key}
use locache.Store.Lru.{
  Lru, get, delete_key, set_with_expiration, cleanup_expired, clear, close, new_lru_internal,
}
use locache.Store.Lru.Spec.{Entry, without, differs, live, weigh, trim, write, read, answer}
use locache.Store.Lru.Spec.Laws.{weigh-retain-le, weigh-trim-le, weigh-read-le}
use locache.Store.Lru.Invariant.{IsValid, view, entries, total}
use locache.Store.Lru.Reads.{
  get-IsValid, get-read, get-max, delete_key-IsValid, delete_key-without, delete_key-max,
}
use locache.Store.Lru.Evict.{evict_locked-IsValid, evict_locked-trim, evict_locked-max}
use locache.Store.Lru.Writes.{
  set_with_expiration-IsValid, set_with_expiration-write, set_with_expiration-max, deadline_of,
}

-- The calls that change a store, each with what the clock shows.
pub data Call (V : Type 0) : Type 0 where
  get_at : Str → ℕ → Call V
  set_at : Str → Option V → ℕ → ℕ → ℕ → Call V
  delete_of : Str → Call V
  clean_at : ℕ → Call V
  clear_all : Call V
  close_it : Call V

module _ {V : Type 0} (size : V → ℕ) where
  -- One call: the state that it leaves and, for a `Get`, the answer.
  unfoldable pub step : Call V → Lru V → Lru V × Option V
  step (get_at k now) c = get size k now c
  step (set_at k value expiration now later) c =
      (set_with_expiration size k value expiration now later c, none)
  step (delete_of k) c = ((delete_key size k c).0, none)
  step (clean_at now) c = (cleanup_expired size now c, none)
  step clear_all c = (clear size c, none)
  step close_it c = (close size c, none)

  unfoldable pub run : List (Call V) → Lru V → Lru V × List (Option V)
  run [] c = (c, [])
  run (call ∷ calls) c =
      let (c', found) = step call c in let (last, rest) = run calls c' in (last, found ∷ rest)

  -- The same calls on the sequence of entries, under a limit.
  unfoldable pub spec_step : ℕ → Call V → List (Entry V) → List (Entry V) × Option V
  spec_step limit (get_at k now) l = (read k now l, answer k now l)
  spec_step limit (set_at k none expiration now later) l = (without k l, none)
  spec_step limit (set_at k (some v) expiration now later) l = (
    write size limit (record { key = k; value = v; deadline = deadline_of expiration now }) later l,
    none,
  )
  spec_step limit (delete_of k) l = (without k l, none)
  spec_step limit (clean_at now) l = (trim size limit (live now l), none)
  spec_step limit clear_all l = ([], none)
  spec_step limit close_it l = (l, none)

  unfoldable pub spec_run : ℕ → List (Call V) → List (Entry V) → List (Entry V) × List (Option V)
  spec_run limit [] l = (l, [])
  spec_run limit (call ∷ calls) l =
      let (l', found) = spec_step limit call l in
      let (last, rest) = spec_run limit calls l' in (last, found ∷ rest)

  -- What a call stores fits an int64 on top of a full store.
  abbrev pub Fits : ℕ → Call V → Type 0
  Fits limit (set_at k (some v) expiration now later) = limit + length k + size v < 2 ^ 63
  Fits limit (set_at k none expiration now later) = Unit
  Fits limit (get_at k now) = Unit
  Fits limit (delete_of k) = Unit
  Fits limit (clean_at now) = Unit
  Fits limit clear_all = Unit
  Fits limit close_it = Unit

  -- A state that stands for the entries `l`, under a limit that is positive as an int64.
  pub record Stands (limit : ℕ) (c : Lru V) (l : List (Entry V)) : Type 0 where
    pub valid : IsValid size c
    pub max : c.max_bytes ≡ limit
    pub word : limit < 2 ^ 63
    pub positive : gt64 limit 0 ≡ true
    pub shown : view c ≡ l
    pub bounded : weigh size l ≤ limit

  clear-IsValid : (c : Lru V) → IsValid size (clear size c)
  unfolding clear find_key lookup total
  clear-IsValid c = record {
    distinct = tt;
    agrees = λ k. refl;
    deadlines = λ k h. refl;
    once = tt;
    bytes = refl;
  }

  without-Stands :
      (limit : ℕ) (k : Str) (c : Lru V) (l : List (Entry V))
      → Stands limit c l
      → Stands limit (delete_key size k c).0 (without k l)
  without-Stands limit k c l s = record {
    valid = delete_key-IsValid size k c s.valid;
    max = delete_key-max size k c ∙ s.max;
    word = s.word;
    positive = s.positive;
    shown = (delete_key-without size k c s.valid).0 ∙ ap (without k) s.shown;
    bounded = omega (arith, s.bounded, weigh-retain-le size (differs k) l);
  }

  close-Stands :
      (limit : ℕ) (c : Lru V) (l : List (Entry V))
      → Stands limit c l
      → Stands limit (close size c) l
  unfolding close
  close-Stands limit c l s =
      elim c.closed
        as (λ b. Stands limit (if b then c else record c { has_ticker = false; closed = true }) l) [
          | true ↦ s
          | false ↦ record {
            valid = record {
              distinct = s.valid.distinct;
              agrees = s.valid.agrees;
              deadlines = s.valid.deadlines;
              once = s.valid.once;
              bytes = s.valid.bytes;
            };
            max = s.max;
            word = s.word;
            positive = s.positive;
            shown = s.shown;
            bounded = s.bounded;
          }
        ]

  step-Stands :
      (limit : ℕ) (call : Call V) (c : Lru V) (l : List (Entry V))
      → Fits limit call
      → Stands limit c l
      → Stands limit (step call c).0 (spec_step limit call l).0
        × ((step call c).1 ≡ (spec_step limit call l).1)
  unfolding step spec_step set_with_expiration clear write weigh entries
  step-Stands limit (get_at k now) c l f s = (
    record {
      valid = get-IsValid size k now c s.valid;
      max = get-max size k now c ∙ s.max;
      word = s.word;
      positive = s.positive;
      shown = (get-read size k now c s.valid).0 ∙ ap (read k now) s.shown;
      bounded = omega (arith, s.bounded, weigh-read-le size k now l);
    },
    (get-read size k now c s.valid).1 ∙ ap (answer k now) s.shown,
  )
  step-Stands limit (set_at k none expiration now later) c l f s =
      (without-Stands limit k c l s, refl)
  step-Stands limit (set_at k (some v) expiration now later) c l f s = (
    record {
      valid = set_with_expiration-IsValid size k (some v) expiration now later c s.valid;
      max = set_with_expiration-max size k (some v) expiration now later c s.valid ∙ s.max;
      word = s.word;
      positive = s.positive;
      shown =
          set_with_expiration-write size k v expiration now later c s.valid
            (rw s.max (omega (arith, s.word))) (rw s.shown (omega (arith, s.bounded, f)))
          ∙ ap₂
              (λ m x.
                write size m (record { key = k; value = v; deadline = deadline_of expiration now })
                  later x)
              s.max s.shown;
      bounded = weigh-trim-le size limit _ s.positive;
    },
    refl,
  )
  step-Stands limit (delete_of k) c l f s = (without-Stands limit k c l s, refl)
  step-Stands limit (clean_at now) c l f s = (
    record {
      valid = evict_locked-IsValid size now c s.valid;
      max = evict_locked-max size now c ∙ s.max;
      word = s.word;
      positive = s.positive;
      shown =
          evict_locked-trim size now c s.valid (rw s.max (omega (arith, s.word)))
            (rw s.shown (omega (arith, s.bounded, s.word)))
          ∙ ap₂ (λ m x. trim size m (live now x)) s.max s.shown;
      bounded = weigh-trim-le size limit _ s.positive;
    },
    refl,
  )
  step-Stands limit clear_all c l f s = (
    record {
      valid = clear-IsValid c;
      max = s.max;
      word = s.word;
      positive = s.positive;
      shown = refl;
      bounded = omega arith;
    },
    refl,
  )
  step-Stands limit close_it c l f s = (close-Stands limit c l s, refl)

  -- After any history the store stands for what the same calls make of the sequence of entries, and
  -- every `Get` was answered as there.
  run-Stands :
      (limit : ℕ) (calls : List (Call V)) (c : Lru V) (l : List (Entry V))
      → All (Fits limit) calls
      → Stands limit c l
      → Stands limit (run calls c).0 (spec_run limit calls l).0
        × ((run calls c).1 ≡ (spec_run limit calls l).1)
  unfolding run spec_run
  run-Stands limit [] c l f s = (s, refl)
  run-Stands limit (call ∷ calls) c l f s =
      let (now, found) = step-Stands limit call c l f.0 s in
      let (last, rest) =
        run-Stands limit calls (step call c).0 (spec_step limit call l).0 f.1 now in
      (last, ap₂ ◌∷◌ found rest)

  pub new_lru_internal-IsValid :
      (opts : Options) (start : Bool) → IsValid size (new_lru_internal opts start)
  unfolding new_lru_internal find_key lookup total
  new_lru_internal-IsValid opts start = record {
    distinct = tt;
    agrees = λ k. refl;
    deadlines = λ k h. refl;
    once = tt;
    bytes = refl;
  }

  new_lru-Stands :
      (opts : Options) (start : Bool)
      → opts.max_bytes < 2 ^ 63
      → gt64 opts.max_bytes 0 ≡ true
      → Stands opts.max_bytes (new_lru_internal opts start) []
  unfolding new_lru_internal find_key lookup total entries weigh
  new_lru-Stands opts start word positive = record {
    valid = new_lru_internal-IsValid opts start;
    max = refl;
    word = word;
    positive = positive;
    shown = refl;
    bounded = omega arith;
  }

  -- From a new store with a positive limit, with or without a timer of its own, any history of calls
  -- whose keys and values fit an int64 on top of a full store keeps the invariant; the store then
  -- holds the entries that the sequence of entries holds, in its order; every `Get` was answered as
  -- there; and the bytes stay within the limit.
  pub run-spec_run :
      (opts : Options) (start : Bool) (calls : List (Call V))
      → opts.max_bytes < 2 ^ 63
      → gt64 opts.max_bytes 0 ≡ true
      → All (Fits opts.max_bytes) calls
      → let after = run calls (new_lru_internal opts start) in
        let ideal = spec_run opts.max_bytes calls [] in
        IsValid size after.0
        × (view after.0 ≡ ideal.0)
        × (after.1 ≡ ideal.1)
        × (weigh size (view after.0) ≤ opts.max_bytes)
  run-spec_run opts start calls word positive fits =
      let (s, answers) =
        run-Stands opts.max_bytes calls (new_lru_internal opts start) [] fits
          (new_lru-Stands opts start word positive) in
      (s.valid, s.shown, answers, rw s.shown s.bounded)
