-- ===== src/SingleFlight/Tests.antt =====
-- Two callers of one key, and the theorems along their run.
use locache.Base.{ℕ, ◌≡◌, ◌≢◌, ◌⊎◌, refl, Option, none, some, [], ◌∷◌, true, false, ℕ_discrete}
use locache.Base.Str.{Str, str_dec}
use locache.Base.Map.{lookup, insert}
use locache.SingleFlight.{
  Outcome, returned, System, forget, update, waiting, running, leaving, completing, finished, join,
  lead, end_fn, remove, release, wake, init, Reach, start, later,
}
use locache.SingleFlight.Invariant
use locache.SingleFlight.Wakeup
use locache.SingleFlight.Wakeup.{IsLed}

abbrev key_a : Str
key_a = 97 ∷ []

-- Caller 0 leads, and caller 1 waits for it.
abbrev led : System ℕ
led = record init {
  m = insert key_a 0 [];
  calls = update init.calls 0 (record { outcome = none; done = false });
  next = 1;
  pc = update init.pc 0 (running key_a 0);
}

abbrev joined : System ℕ
joined = record led { pc = update led.pc 1 (waiting key_a 0) }

joined-Reach : Reach joined
unfolding lookup insert str_dec ℕ_discrete
joined-Reach = later (later start (lead init 0 key_a refl refl)) (join led 1 key_a 0 refl refl)

-- `fn` returns 7, and both callers read it.
abbrev ended : System ℕ
ended = record joined {
  calls = update joined.calls 0 (record (joined.calls 0) { outcome = some (returned 7) });
  pc = update joined.pc 0 (leaving key_a 0);
}

abbrev removed : System ℕ
removed = record ended { m = forget key_a 0 ended.m; pc = update ended.pc 0 (completing key_a 0) }

abbrev released : System ℕ
released = record removed {
  calls = update removed.calls 0 (record (removed.calls 0) { done = true });
  pc = update removed.pc 0 (finished key_a 0 (removed.calls 0).outcome);
}

abbrev woken : System ℕ
woken = record released { pc = update released.pc 1 (finished key_a 0 (released.calls 0).outcome) }

woken-Reach : Reach woken
unfolding ℕ_discrete
woken-Reach =
    later
      (later
        (later (later joined-Reach (end_fn joined 0 key_a 0 (returned 7) refl))
          (remove ended 0 key_a 0 refl))
        (release removed 0 key_a 0 refl))
      (wake released 1 key_a 0 refl refl)

abbrev leader : ℕ
leader = 0

one_in_flight_example : leader ≡ 0
unfolding ℕ_discrete
one_in_flight_example = Invariant.one_in_flight joined-Reach 0 0 key_a 0 0 refl refl

one_outcome_example :
    (◌≡◌ {A = Option (Outcome ℕ)} (some (returned 7)) (some (returned 7)))
    × (◌≢◌ {A = Option (Outcome ℕ)} (some (returned 7)) none)
unfolding ℕ_discrete
one_outcome_example =
    Invariant.one_outcome woken-Reach 0 1 key_a key_a 0 (some (returned 7)) (some (returned 7)) refl
      refl

wakeup_example : ((joined.calls 0).done ≡ true) ⊎ IsLed 0 joined.pc
unfolding ℕ_discrete
wakeup_example = Wakeup.wakeup joined-Reach 1 key_a 0 refl
