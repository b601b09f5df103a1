-- ===== src/SingleFlight/Invariant/Frames.antt =====
-- The invariant of the callers of singleflight/singleflight.go, and what an update of one leaves.
use locache.Base.{
  ℕ, suc, ◌<◌, ◌≡◌, ◌≢◌, refl, sym, ◌∙◌, subst, if_pos, if_neg, none, some, true, false, ℕ_discrete,
  arith,
}
use locache.Base.Str.{Str}
use locache.Base.Map.{Map, lookup, insert, lookup-insert, lookup-delete}
use locache.SingleFlight.{
  Outcome, Call, Pc, idle, waiting, running, leaving, completing, finished, System, update, forget,
}

pub update_self {ℓ} : {A : Type ℓ} (f : ℕ → A) (i : ℕ) (a : A) → update f i a i ≡ a
update_self f i a = elim (ℕ_discrete i i) [
  | yes e ↦ if_pos (ℕ_discrete i i) e a (f i)
  | no ne ↦ absurd (ne refl)
]

pub update_other {ℓ} : {A : Type ℓ} (f : ℕ → A) (i j : ℕ) (a : A) → i ≢ j → update f i a j ≡ f j
update_other f i j a ne = if_neg (ℕ_discrete i j) ne a (f j)

-- A property of all values of a family, after one is replaced.
pub every_update {ℓ κ} :
    {A : Type ℓ} (P : A → Type κ) (f : ℕ → A) (i : ℕ) (a : A)
    → P a
    → ((j : ℕ) → i ≢ j → P (f j))
    → (j : ℕ) → P (update f i a j)
every_update P f i a here others j = elim (ℕ_discrete i j) [
  | yes e ↦ subst (λ k. P (update f i a k)) e (subst P (sym (update_self f i a)) here)
  | no ne ↦ subst P (sym (update_other f i j a ne)) (others j ne)
]

module _ {V : Type 0} where
  -- What the map and the calls have for a caller at a point.
  abbrev pub Fits : Map ℕ → (ℕ → Call V) → ℕ → Pc V → Type 0
  Fits m calls next idle = Unit {0}
  Fits m calls next (waiting key c) = c < next
  Fits m calls next (running key c) =
      (c < next) × (lookup key m ≡ some c) × ((calls c).outcome ≡ none) × ((calls c).done ≡ false)
  Fits m calls next (leaving key c) =
      (c < next) × (lookup key m ≡ some c) × ((calls c).outcome ≢ none)
  Fits m calls next (completing key c) = (c < next) × ((calls c).outcome ≢ none)
  Fits m calls next (finished key c r) = (c < next) × (r ≡ (calls c).outcome) × (r ≢ none)

  -- The caller leads the call.
  abbrev pub Leads : ℕ → Pc V → Type 0
  Leads c idle = ⊥
  Leads c (waiting key d) = ⊥
  Leads c (running key d) = c ≡ d
  Leads c (leaving key d) = c ≡ d
  Leads c (completing key d) = c ≡ d
  Leads c (finished key d r) = ⊥

  pub record Inv (s : System V) : Type 0 where
    pub fits : (i : ℕ) → Fits s.m s.calls s.next (s.pc i)
    pub alone : (i j c : ℕ) → Leads c (s.pc i) → Leads c (s.pc j) → i ≡ j
    pub known : (key : Str) (c : ℕ) → lookup key s.m ≡ some c → c < s.next
    pub ended : (c : ℕ) → (s.calls c).done ≡ true → (s.calls c).outcome ≢ none

  -- A new call for a key without one.
  pub Fits-lead :
      (m : Map ℕ) (calls : ℕ → Call V) (next : ℕ) (key : Str) (b : Call V) (p : Pc V)
      → lookup key m ≡ none
      → Fits m calls next p
      → Fits (insert key next m) (update calls next b) (suc next) p
  Fits-lead m calls next key b idle e h = tt
  Fits-lead m calls next key b (waiting k c) e h = omega arith
  Fits-lead m calls next key b (running k c) e h = ground (arith, lookup-insert k key next m)
  Fits-lead m calls next key b (leaving k c) e h = ground (arith, lookup-insert k key next m)
  Fits-lead m calls next key b (completing k c) e h = ground arith
  Fits-lead m calls next key b (finished k c r) e h = ground arith

  -- The outcome of a call that the caller does not lead, and that had none.
  pub Fits-end_fn :
      (m : Map ℕ) (calls : ℕ → Call V) (next c : ℕ) (o : Outcome V) (p : Pc V)
      → (calls c).outcome ≡ none
      → ¬ Leads c p
      → Fits m calls next p
      → Fits m (update calls c (record (calls c) { outcome = some o })) next p
  Fits-end_fn m calls next c o idle e l h = tt
  Fits-end_fn m calls next c o (waiting k d) e l h = h
  Fits-end_fn m calls next c o (running k d) e l h = ground arith
  Fits-end_fn m calls next c o (leaving k d) e l h = ground arith
  Fits-end_fn m calls next c o (completing k d) e l h = ground arith
  Fits-end_fn m calls next c o (finished k d r) e l h = ground arith

  pub Fits-forget :
      (m : Map ℕ) (calls : ℕ → Call V) (next : ℕ) (key : Str) (c : ℕ) (p : Pc V)
      → ¬ Leads c p
      → Fits m calls next p
      → Fits (forget key c m) calls next p
  unfolding forget
  Fits-forget m calls next key c idle l h = tt
  Fits-forget m calls next key c (waiting k d) l h = h
  Fits-forget m calls next key c (running k d) l h = ground (arith, lookup-delete k key m)
  Fits-forget m calls next key c (leaving k d) l h = ground (arith, lookup-delete k key m)
  Fits-forget m calls next key c (completing k d) l h = h
  Fits-forget m calls next key c (finished k d r) l h = h

  pub Fits-release :
      (m : Map ℕ) (calls : ℕ → Call V) (next c : ℕ) (p : Pc V)
      → ¬ Leads c p
      → Fits m calls next p
      → Fits m (update calls c (record (calls c) { done = true })) next p
  Fits-release m calls next c idle l h = tt
  Fits-release m calls next c (waiting k d) l h = h
  Fits-release m calls next c (running k d) l h = ground arith
  Fits-release m calls next c (leaving k d) l h = ground arith
  Fits-release m calls next c (completing k d) l h = ground arith
  Fits-release m calls next c (finished k d r) l h = ground arith

  pub Leads-lt :
      (m : Map ℕ) (calls : ℕ → Call V) (next c : ℕ) (p : Pc V)
      → Fits m calls next p
      → Leads c p
      → c < next
  Leads-lt m calls next c idle h l = absurd l
  Leads-lt m calls next c (waiting k d) h l = absurd l
  Leads-lt m calls next c (running k d) h l = omega (arith, h.0)
  Leads-lt m calls next c (leaving k d) h l = omega (arith, h.0)
  Leads-lt m calls next c (completing k d) h l = omega (arith, h.0)
  Leads-lt m calls next c (finished k d r) h l = absurd l

  -- A caller moves, and leads only calls that no other leads.
  pub alone_update :
      (pc : ℕ → Pc V) (i : ℕ) (a : Pc V)
      → ((j k c : ℕ) → Leads c (pc j) → Leads c (pc k) → j ≡ k)
      → ((c j : ℕ) → i ≢ j → Leads c a → ¬ Leads c (pc j))
      → (j k c : ℕ) → Leads c (update pc i a j)
      → Leads c (update pc i a k)
      → j ≡ k
  alone_update pc i a alone free j k c l l' = elim (ℕ_discrete i j) [
    | yes e ↦ elim (ℕ_discrete i k) [
      | yes e' ↦ sym e ∙ e'
      | no ne' ↦ absurd (
          free c k ne'
            (subst (Leads c) (update_self pc i a)
              (subst (λ n. Leads c (update pc i a n)) (sym e) l))
            (subst (Leads c) (update_other pc i k a ne') l'))
    ]
    | no ne ↦ elim (ℕ_discrete i k) [
      | yes e' ↦ absurd (
          free c j ne
            (subst (Leads c) (update_self pc i a)
              (subst (λ n. Leads c (update pc i a n)) (sym e') l'))
            (subst (Leads c) (update_other pc i j a ne) l))
      | no ne' ↦
          alone j k c (subst (Leads c) (update_other pc i j a ne) l)
            (subst (Leads c) (update_other pc i k a ne') l')
    ]
  ]

  -- A caller that moves on with its call stays alone with it.
  pub stays_alone :
      (pc : ℕ → Pc V) (i : ℕ) (a : Pc V)
      → ((j k c : ℕ) → Leads c (pc j) → Leads c (pc k) → j ≡ k)
      → ((c : ℕ) → Leads c a → Leads c (pc i))
      → (j k c : ℕ) → Leads c (update pc i a j)
      → Leads c (update pc i a k)
      → j ≡ k
  stays_alone pc i a alone same =
      alone_update pc i a alone (λ c j ne l l'. ne (alone i j c (same c l) l'))
