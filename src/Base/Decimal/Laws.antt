-- ===== src/Base/Decimal/Laws.antt =====
-- The decimal form of a number, read back, also from before a colon.
use Prim.Native.Nat.{ℕ, zero, suc, ◌+◌, ◌-◌, ◌*◌, ◌/◌, ◌%◌, ◌<◌}
use mathlib.Core.List.{[], ◌∷◌, ◌++◌}
use mathlib.Core.Logic.{◌≢◌, inl, inr}
use mathlib.Core.Path.{◌≡◌, refl, sym, ◌∙◌, ap}
use native.Mathlib.Omega.{arith}
use locache.Base.Tests.{ltb, ◌==◌, if◌then◌else◌, Bool-cases}
use locache.Base.Lists.{All}
use locache.Base.Str.{Str}
use locache.Base.Decimal.{decimal, decimal_from}

value : ℕ → Str → ℕ
value n [] = n
value n (d ∷ s) = value (n * 10 + (d - b'0')) s

value-append : (n : ℕ) (s t : Str) → value n (s ++ t) ≡ value (value n s) t
unfolding value
value-append n [] t = refl
value-append n (d ∷ s) t = value-append (n * 10 + (d - b'0')) s t

value-decimal_from : (fuel n : ℕ) → n < fuel → value 0 (decimal_from fuel n) ≡ n
unfolding value decimal_from
value-decimal_from zero n h = absurd (omega arith)
value-decimal_from (suc fuel) n h = elim (Bool-cases (ltb n 10)) [
  | inl small ↦ rw (small, decimal_from) (omega arith)
  | inr large ↦
      rw (large, decimal_from)
        (value-append 0 (decimal_from fuel (n / 10)) _
          ∙ ap (λ m. m * 10 + (b'0' + n % 10 - b'0'))
              (value-decimal_from fuel (n / 10) (ground arith))
          ∙ omega arith)
]

decimal-inj : (m n : ℕ) → decimal m ≡ decimal n → m ≡ n
unfolding decimal
decimal-inj m n e =
    sym (value-decimal_from (suc m) m (omega arith))
    ∙ ap (value 0) e
    ∙ value-decimal_from (suc n) n (omega arith)

All-snoc : (s : Str) (d : ℕ) → All (λ c. c ≢ b':') s → d ≢ b':' → All (λ c. c ≢ b':') (s ++ d ∷ [])
All-snoc [] d h k = (k, tt)
All-snoc (c ∷ s) d h k = (h.0, All-snoc s d h.1 k)

no_colon : (fuel n : ℕ) → All (λ d. d ≢ b':') (decimal_from fuel n)
unfolding decimal_from
no_colon zero n = tt
no_colon (suc fuel) n = elim (Bool-cases (ltb n 10)) [
  | inl small ↦ rw (small, decimal_from) ((λ e. ground arith), tt)
  | inr large ↦
      rw (large, decimal_from)
        (All-snoc (decimal_from fuel (n / 10)) _ (no_colon fuel (n / 10)) (λ e. omega arith))
]

-- What stands before the first colon, and what after it.
before : Str → Str
before [] = []
before (c ∷ s) = if c == b':' then [] else c ∷ before s

after : Str → Str
after [] = []
after (c ∷ s) = if c == b':' then s else after s

before-colon : (s t : Str) → All (λ d. d ≢ b':') s → before (s ++ (b':' ∷ t)) ≡ s
unfolding before
before-colon [] t h = refl
before-colon (c ∷ s) t h = ground (arith, before-colon s t h.1, h.0)

after-colon : (s t : Str) → All (λ d. d ≢ b':') s → after (s ++ (b':' ∷ t)) ≡ t
unfolding after
after-colon [] t h = refl
after-colon (c ∷ s) t h = ground (arith, after-colon s t h.1, h.0)

-- A number and a text are known by the number's decimal form, a colon and the text.
pub decimal_colon-inj :
    (m n : ℕ) (s t : Str)
    → (decimal m ++ (b':' ∷ s)) ≡ (decimal n ++ (b':' ∷ t))
    → (m ≡ n) × (s ≡ t)
unfolding decimal
decimal_colon-inj m n s t e = (
  decimal-inj m n (
      sym (before-colon (decimal m) s (no_colon (suc m) m))
      ∙ ap before e
      ∙ before-colon (decimal n) t (no_colon (suc n) n)),
  sym (after-colon (decimal m) s (no_colon (suc m) m))
      ∙ ap after e
      ∙ after-colon (decimal n) t (no_colon (suc n) n),
)
