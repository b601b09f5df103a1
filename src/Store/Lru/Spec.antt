-- ===== src/Store/Lru/Spec.antt =====
-- What store/lru.go promises: one sequence of entries, least recently used first, each with an
-- optional deadline, bounded by the bytes of its keys and values.
pub mod Laws
use locache.Base.{
  ℕ, ◌+◌, ◌^◌, ite, Option, none, some, List, [], ◌∷◌, ◌++◌, Bool, true, false, not, ltb,
  if◌then◌else◌, length, retain,
}
use locache.Base.Words.{gt64}
use locache.Base.Str.{Str, str_dec}
use locache.Store.Lru.{is_past}

pub record Entry (V : Type 0) : Type 0 where
  pub key : Str
  pub value : V
  pub deadline : Option ℕ

module _ {V : Type 0} where
  unfoldable pub find : Str → List (Entry V) → Option (Entry V)
  find k [] = none
  find k (e ∷ l) = ite (str_dec e.key k) (some e) (find k l)

  abbrev pub differs : Str → Entry V → Bool
  differs k e = ite (str_dec e.key k) false true

  abbrev pub without : Str → List (Entry V) → List (Entry V)
  without k = retain (differs k)

  abbrev pub is_live : ℕ → Entry V → Bool
  is_live now e = not (is_past now e.deadline)

  abbrev pub live : ℕ → List (Entry V) → List (Entry V)
  live now = retain (is_live now)

  -- A read moves a live entry to the end, and drops a dead one.
  unfoldable pub read : Str → ℕ → List (Entry V) → List (Entry V)
  read k now l = elim (find k l) [
    | none ↦ l
    | some e ↦ if is_past now e.deadline then without k l else without k l ++ e ∷ []
  ]

  unfoldable pub answer : Str → ℕ → List (Entry V) → Option V
  answer k now l = elim (find k l) [
    | none ↦ none
    | some e ↦ if is_past now e.deadline then none else some e.value
  ]

module _ {V : Type 0} (size : V → ℕ) where
  unfoldable pub weigh : List (Entry V) → ℕ
  weigh [] = 0
  weigh (e ∷ l) = length e.key + size e.value + weigh l

  -- The longest end of the sequence that a positive limit allows.
  unfoldable pub trim : ℕ → List (Entry V) → List (Entry V)
  trim limit [] = []
  trim limit (e ∷ l) =
      let rest = trim limit l in
      if gt64 limit 0 then (if ltb limit (weigh (e ∷ l)) then rest else e ∷ l) else e ∷ l

  -- A write puts the entry at the end, then drops the dead, then the least recently used.
  unfoldable pub write : ℕ → Entry V → ℕ → List (Entry V) → List (Entry V)
  write limit e later l = trim limit (live later (without e.key l ++ e ∷ []))
