-- ===== src/SingleFlight/Wakeup.antt =====
-- Who releases the calls that the callers of singleflight/singleflight.go wait for.
use locache.Base.{ℕ, ◌<◌, ◌≡◌, ◌⊎◌, inl, inr, sym, ◌∙◌, ap, subst, true, ℕ_discrete, arith}
use locache.Base.Str.{Str}
use locache.SingleFlight.{
  Call, Pc, waiting, running, System, update, Step, join, lead, end_fn, remove, release, wake,
  return, Reach, start, later,
}
use locache.SingleFlight.Invariant.{Reach-Inv}
use locache.SingleFlight.Invariant.Frames.{update_self, update_other, Fits, Leads}

or_led : {P P' Q Q' : Type 0} → (P → P') → (Q → Q') → P ⊎ Q → P' ⊎ Q'
or_led f g (inl e) = inl (f e)
or_led f g (inr l) = inr (g l)

module _ {V : Type 0} where
  -- Some caller leads the call.
  abbrev pub IsLed : ℕ → (ℕ → Pc V) → Type 0
  IsLed c pc = (i : ℕ) × Leads c (pc i)

  -- A caller moves, and keeps the call if it led it.
  IsLed-update :
      (c : ℕ) (pc : ℕ → Pc V) (i : ℕ) (a : Pc V)
      → (Leads c (pc i) → Leads c a)
      → IsLed c pc
      → IsLed c (update pc i a)
  IsLed-update c pc i a keeps (k, l) = elim (ℕ_discrete i k) [
    | yes e ↦ (
      i,
      subst (Leads c) (sym (update_self pc i a)) (keeps (subst (λ n. Leads c (pc n)) (sym e) l)),
    )
    | no ne ↦ (k, subst (Leads c) (sym (update_other pc i k a ne)) l)
  ]

  -- Every call that was made is released or led.
  abbrev IsServed : System V → Type 0
  IsServed s = (c : ℕ) → c < s.next → ((s.calls c).done ≡ true) ⊎ IsLed c s.pc

  Step-IsServed : {s t : System V} → Step s t → IsServed s → IsServed t
  Step-IsServed (join s i key c at held) v d h =
      or_led (λ e. e) (IsLed-update d s.pc i _ (λ l. absurd (subst (Leads d) at l))) (v d h)
  Step-IsServed (lead s i key at free) v d h = elim (ℕ_discrete s.next d) [
    | yes e ↦ inr (i, subst (Leads d) (sym (update_self s.pc i (running key s.next))) (sym e))
    | no ne ↦
        or_led (λ e. ap (λ (x : Call V). x.done) (update_other s.calls s.next d _ ne) ∙ e)
          (IsLed-update d s.pc i _ (λ l. absurd (subst (Leads d) at l))) (v d (omega arith))
  ]
  Step-IsServed (end_fn s i key c o at) v d h =
      or_led (λ e. ground arith) (IsLed-update d s.pc i _ (λ l. subst (Leads d) at l)) (v d h)
  Step-IsServed (remove s i key c at) v d h =
      or_led (λ e. e) (IsLed-update d s.pc i _ (λ l. subst (Leads d) at l)) (v d h)
  Step-IsServed (release s i key c at) v d h = elim (ℕ_discrete c d) [
    | yes e ↦ inl (ground arith)
    | no ne ↦
        or_led (λ e. ap (λ (x : Call V). x.done) (update_other s.calls c d _ ne) ∙ e)
          (IsLed-update d s.pc i _ (λ l. absurd (ne (sym (subst (Leads d) at l))))) (v d h)
  ]
  Step-IsServed (wake s i key c at done) v d h =
      or_led (λ e. e) (IsLed-update d s.pc i _ (λ l. absurd (subst (Leads d) at l))) (v d h)
  Step-IsServed (return s i key c r at) v d h =
      or_led (λ e. e) (IsLed-update d s.pc i _ (λ l. absurd (subst (Leads d) at l))) (v d h)

  Reach-IsServed : {s : System V} → Reach s → IsServed s
  Reach-IsServed start = λ c h. absurd (omega arith)
  Reach-IsServed (later r st) = Step-IsServed st (Reach-IsServed r)

  -- In every reachable state, a caller that waits for a call can go on at once, or another caller is
  -- at work on that call, on its way to release it.
  pub wakeup :
      {s : System V}
      → Reach s
      → (i : ℕ) (key : Str) (c : ℕ) → s.pc i ≡ waiting key c
      → ((s.calls c).done ≡ true) ⊎ IsLed c s.pc
  wakeup {s} r i key c at =
      Reach-IsServed r c (subst (Fits s.m s.calls s.next) at ((Reach-Inv r).fits i))
