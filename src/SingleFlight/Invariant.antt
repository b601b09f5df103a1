-- ===== src/SingleFlight/Invariant.antt =====
-- What holds of the callers of singleflight/singleflight.go in every reachable state.
pub mod Frames
use locache.Base.{
  ℕ, suc, ◌<◌, ◌≡◌, ◌≢◌, refl, sym, ◌∙◌, subst, if_pos, if_neg, Option, none, some, true, false,
  ℕ_discrete, arith,
}
use locache.Base.Str.{Str}
use locache.Base.Map.{Map, lookup, insert, lookup-insert, lookup-delete}
use locache.SingleFlight.{
  Outcome, Call, Pc, idle, waiting, running, leaving, completing, finished, System, update, forget,
  Step, join, lead, end_fn, remove, release, wake, return, init, Reach, start, later,
}
use locache.SingleFlight.Invariant.Frames.{
  every_update, Fits, Fits-end_fn, Fits-forget, Fits-lead, Fits-release, Inv, Leads, Leads-lt,
  alone_update, stays_alone,
}

module _ {V : Type 0} where
  Step-Inv : {s t : System V} → Step s t → Inv s → Inv t
  unfolding forget
  Step-Inv (join s i key c at held) v = record {
    fits =
        every_update (Fits s.m s.calls s.next) s.pc i (waiting key c) (v.known key c held)
          (λ j ne. v.fits j);
    alone = stays_alone s.pc i (waiting key c) v.alone (λ d l. absurd l);
    known = v.known;
    ended = v.ended;
  }
  Step-Inv (lead s i key at free) v = record {
    fits =
        every_update (Fits _ _ _) s.pc i (running key s.next)
          (ground (arith, lookup-insert key key s.next s.m))
          (λ j ne. Fits-lead s.m s.calls s.next key _ (s.pc j) free (v.fits j));
    alone =
        alone_update s.pc i (running key s.next) v.alone
          (λ c j ne l l'. omega (arith, Leads-lt s.m s.calls s.next c (s.pc j) (v.fits j) l', l));
    known = λ k c h. ground (arith, lookup-insert k key s.next s.m, v.known k c);
    ended = λ c. ground (arith, v.ended c);
  }
  Step-Inv (end_fn s i key c o at) v =
      let here = subst (Fits s.m s.calls s.next) at (v.fits i) in
      record {
        fits =
            every_update (Fits s.m _ s.next) s.pc i (leaving key c)
              (here.0, here.1, λ e. ground arith)
              (λ j ne.
                Fits-end_fn s.m s.calls s.next c o (s.pc j) here.2
                  (λ l. ne (v.alone i j c (rw at refl) l)) (v.fits j));
        alone = stays_alone s.pc i (leaving key c) v.alone (λ d l. rw at l);
        known = v.known;
        ended = λ d. ground (arith, v.ended d);
      }
  Step-Inv (remove s i key c at) v =
      let here = subst (Fits s.m s.calls s.next) at (v.fits i) in
      record {
        fits =
            every_update (Fits (forget key c s.m) s.calls s.next) s.pc i (completing key c)
              (here.0, here.2)
              (λ j ne.
                Fits-forget s.m s.calls s.next key c (s.pc j)
                  (λ l. ne (v.alone i j c (rw at refl) l)) (v.fits j));
        alone = stays_alone s.pc i (completing key c) v.alone (λ d l. rw at l);
        known = λ k d h. ground (arith, lookup-delete k key s.m, v.known k d);
        ended = v.ended;
      }
  Step-Inv (release s i key c at) v =
      let here = subst (Fits s.m s.calls s.next) at (v.fits i) in
      record {
        fits =
            every_update (Fits s.m _ s.next) s.pc i (finished key c (s.calls c).outcome)
              (here.0, ground arith, here.1)
              (λ j ne.
                Fits-release s.m s.calls s.next c (s.pc j) (λ l. ne (v.alone i j c (rw at refl) l))
                  (v.fits j));
        alone = stays_alone s.pc i _ v.alone (λ d l. absurd l);
        known = v.known;
        ended = λ d. ground (arith, v.ended d, here.1);
      }
  Step-Inv (wake s i key c at done) v =
      let here = subst (Fits s.m s.calls s.next) at (v.fits i) in
      record {
        fits =
            every_update (Fits s.m s.calls s.next) s.pc i (finished key c (s.calls c).outcome)
              (here, refl, v.ended c done) (λ j ne. v.fits j);
        alone = stays_alone s.pc i _ v.alone (λ d l. absurd l);
        known = v.known;
        ended = v.ended;
      }
  Step-Inv (return s i key c r at) v = record {
    fits = every_update (Fits s.m s.calls s.next) s.pc i idle tt (λ j ne. v.fits j);
    alone = stays_alone s.pc i idle v.alone (λ d l. absurd l);
    known = v.known;
    ended = v.ended;
  }

  init-Inv : Inv {V = V} init
  unfolding lookup
  init-Inv = record {
    fits = λ i. tt;
    alone = λ i j c l l'. absurd l;
    known = λ key c e. cc;
    ended = λ c e. cc;
  }

  pub Reach-Inv : {s : System V} → Reach s → Inv s
  Reach-Inv start = init-Inv
  Reach-Inv (later r st) = Step-Inv st (Reach-Inv r)

  -- In every reachable state at most one caller is in `fn` for a key.
  pub one_in_flight :
      {s : System V}
      → Reach s
      → (i j : ℕ) (key : Str) (c d : ℕ) → s.pc i ≡ running key c
      → s.pc j ≡ running key d
      → i ≡ j
  one_in_flight {s} r i j key c d at at' =
      let v = Reach-Inv r in
      let here = subst (Fits s.m s.calls s.next) at (v.fits i) in
      let there = subst (Fits s.m s.calls s.next) at' (v.fits j) in
      let same : c ≡ d = ground (arith, here.1, there.1) in
      v.alone i j c (subst (Leads c) (sym at) refl) (subst (Leads c) (sym at') same)

  -- In every reachable state, callers that have returned from one call have the same outcome of `fn`,
  -- and there is one: no caller returns before `fn` has ended.
  pub one_outcome :
      {s : System V}
      → Reach s
      → (i j : ℕ) (key key' : Str) (c : ℕ) (a b : Option (Outcome V)) → s.pc i ≡ finished key c a
      → s.pc j ≡ finished key' c b
      → (a ≡ b) × (a ≢ none)
  one_outcome {s} r i j key key' c a b at at' =
      let v = Reach-Inv r in
      let here = subst (Fits s.m s.calls s.next) at (v.fits i) in
      let there = subst (Fits s.m s.calls s.next) at' (v.fits j) in (here.1 ∙ sym there.1, here.2)
