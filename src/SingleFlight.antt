-- ===== src/SingleFlight.antt =====
-- singleflight/singleflight.go: the callers of `Do` as a system of threads. A step is what a caller
-- does at once: under the lock, or in the one call of `fn`, or past the wait group.
pub mod Invariant
pub mod Wakeup
mod Tests
use locache.Base.{
  ℕ, suc, ◌≡◌, ite, Option, none, some, List, [], Bool, true, false, ◌==◌, if◌then◌else◌,
  ℕ_discrete,
}
use locache.Base.Str.{Str}
use locache.Base.Map.{Map, lookup, insert, delete}

-- What a call of `fn` came to: its two results, or the value that it panicked with.
pub data Outcome (V : Type 0) : Type 0 where
  returned : V → Outcome V
  panicked : V → Outcome V

-- The fields of a `call`, none before `fn` has ended, and whether its wait group is released.
pub record Call (V : Type 0) : Type 0 where
  pub outcome : Option (Outcome V)
  pub done : Bool

-- Where a caller stands: outside; waiting for a call; in `fn`; past it, before the removal; before
-- the release; and after, with what it read of the call.
pub data Pc (V : Type 0) : Type 0 where
  idle : Pc V
  waiting running leaving completing : Str → ℕ → Pc V
  finished : Str → ℕ → Option (Outcome V) → Pc V

-- A pointer to a `call` is a number; those from `next` on are free. The callers are numbered.
pub record System (V : Type 0) : Type 0 where
  pub m : Map ℕ
  pub calls : ℕ → Call V
  pub next : ℕ
  pub pc : ℕ → Pc V

abbrev pub update {ℓ} : {A : Type ℓ} → (ℕ → A) → ℕ → A → ℕ → A
update f i a j = ite (ℕ_discrete i j) a (f j)

abbrev pub is_call : ℕ → Option ℕ → Bool
is_call c none = false
is_call c (some d) = c == d

-- `if g.m[key] == c { delete(g.m, key) }`.
unfoldable pub forget : Str → ℕ → Map ℕ → Map ℕ
forget key c m = if is_call c (lookup key m) then delete key m else m

pub data Step {V : Type 0} : System V → System V → Type 0 where
  join :
      (s : System V) (i : ℕ) (key : Str) (c : ℕ)
      → s.pc i ≡ idle
      → lookup key s.m ≡ some c
      → Step s (record s { pc = update s.pc i (waiting key c) })
  lead :
      (s : System V) (i : ℕ) (key : Str)
      → s.pc i ≡ idle
      → lookup key s.m ≡ none
      → Step s (record s {
        m = insert key s.next s.m;
        calls = update s.calls s.next (record { outcome = none; done = false });
        next = suc s.next;
        pc = update s.pc i (running key s.next);
      })
  end_fn :
      (s : System V) (i : ℕ) (key : Str) (c : ℕ) (o : Outcome V)
      → s.pc i ≡ running key c
      → Step s (record s {
        calls = update s.calls c (record (s.calls c) { outcome = some o });
        pc = update s.pc i (leaving key c);
      })
  remove :
      (s : System V) (i : ℕ) (key : Str) (c : ℕ)
      → s.pc i ≡ leaving key c
      → Step s (record s { m = forget key c s.m; pc = update s.pc i (completing key c) })
  release :
      (s : System V) (i : ℕ) (key : Str) (c : ℕ)
      → s.pc i ≡ completing key c
      → Step s (record s {
        calls = update s.calls c (record (s.calls c) { done = true });
        pc = update s.pc i (finished key c (s.calls c).outcome);
      })
  wake :
      (s : System V) (i : ℕ) (key : Str) (c : ℕ)
      → s.pc i ≡ waiting key c
      → (s.calls c).done ≡ true
      → Step s (record s { pc = update s.pc i (finished key c (s.calls c).outcome) })
  return :
      (s : System V) (i : ℕ) (key : Str) (c : ℕ) (r : Option (Outcome V))
      → s.pc i ≡ finished key c r
      → Step s (record s { pc = update s.pc i idle })

abbrev pub init : {V : Type 0} → System V
init = record {
  m = [];
  calls = λ c. record { outcome = none; done = false };
  next = 0;
  pc = λ i. idle;
}

pub data Reach {V : Type 0} : System V → Type 0 where
  start : Reach init
  later : {s t : System V} → Reach s → Step s t → Reach t
