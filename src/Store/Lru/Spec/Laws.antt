-- ===== src/Store/Lru/Spec/Laws.antt =====
-- Laws of the sequences of entries that store/lru.go maintains.
use locache.Base.{
  ℕ, ◌+◌, ◌≤◌, ◌≡◌, ◌≢◌, ◌⊎◌, inl, inr, refl, sym, ◌∙◌, none, some, List, [], ◌∷◌, ◌++◌, arith,
  Bool, true, false, ◌&&◌, retain, retain-append, ltb, if◌then◌else◌, length, Bool-cases,
  Option-cases,
}
use locache.Base.Words.{gt64}
use locache.Base.Str.{Str}
use locache.Store.Lru.{is_past}
use locache.Store.Lru.Spec.{Entry, find, differs, without, is_live, live, read, weigh, trim, write}

module _ {V : Type 0} where
  find-append :
      (k : Str) (xs : List (Entry V)) (e : Entry V)
      → find k xs ≡ none
      → e.key ≡ k
      → find k (xs ++ e ∷ []) ≡ some e
  unfolding find
  find-append k [] e h p = ground arith
  find-append k (x ∷ xs) e h p = ground (arith, find-append k xs e)

  -- What is dropped is dropped from a search too.
  find_absent-retain :
      (k : Str) (p : Entry V → Bool) (xs : List (Entry V))
      → find k xs ≡ none
      → find k (retain p xs) ≡ none
  unfolding find retain
  find_absent-retain k p [] h = refl
  find_absent-retain k p (x ∷ xs) h = ground (arith, find_absent-retain k p xs)

  pub find-without_self : (k : Str) (xs : List (Entry V)) → find k (without k xs) ≡ none
  unfolding find retain
  find-without_self k [] = refl
  find-without_self k (x ∷ xs) = ground (arith, find-without_self k xs)

  pub find-without_ne :
      (j k : Str) (xs : List (Entry V)) → j ≢ k → find j (without k xs) ≡ find j xs
  unfolding find retain
  find-without_ne j k [] h = refl
  find-without_ne j k (x ∷ xs) h = ground (arith, find-without_ne j k xs h)

  find-append_ne :
      (j : Str) (xs : List (Entry V)) (e : Entry V) → e.key ≢ j → find j (xs ++ e ∷ []) ≡ find j xs
  unfolding find
  find-append_ne j [] e h = ground arith
  find-append_ne j (x ∷ xs) e h = ground (arith, find-append_ne j xs e h)

  live-last :
      (now : ℕ) (l : List (Entry V)) (e : Entry V)
      → is_past now e.deadline ≡ false
      → live now (l ++ e ∷ []) ≡ live now l ++ e ∷ []
  unfolding retain
  live-last now l e h = retain-append (is_live now) l (e ∷ []) ∙ rw h

  -- No key has two entries.
  abbrev pub Once : List (Entry V) → Type 0
  Once [] = Unit {0}
  Once (e ∷ l) = (find e.key l ≡ none) × Once l

  -- Dropping entries from a sequence without repeated keys hides some and changes none.
  pub find-retain :
      (j : Str) (p : Entry V → Bool) (l : List (Entry V))
      → Once l
      → (find j (retain p l) ≡ none) ⊎ (find j (retain p l) ≡ find j l)
  unfolding find retain
  find-retain j p [] h = inl refl
  find-retain j p (x ∷ l) h = ground (arith, find-retain j p l h.1, find_absent-retain j p l)

  pub retain-Once : (p : Entry V → Bool) (l : List (Entry V)) → Once l → Once (retain p l)
  unfolding retain
  retain-Once p [] h = tt
  retain-Once p (x ∷ l) h = ground (arith, retain-Once p l h.1, find_absent-retain x.key p l h.0)

  pub append-Once :
      (l : List (Entry V)) (e : Entry V) → Once l → find e.key l ≡ none → Once (l ++ e ∷ [])
  unfolding find
  append-Once [] e h a = (refl, tt)
  append-Once (x ∷ l) e h a =
      (ground (arith, find-append_ne x.key l e), append-Once l e h.1 (ground arith))

module _ {V : Type 0} (size : V → ℕ) where
  pub weigh-append :
      (xs ys : List (Entry V)) → weigh size (xs ++ ys) ≡ weigh size xs + weigh size ys
  unfolding weigh
  weigh-append [] ys = omega arith
  weigh-append (x ∷ xs) ys = omega (arith, weigh-append xs ys)

  pub weigh-retain-le :
      (p : Entry V → Bool) (l : List (Entry V)) → weigh size (retain p l) ≤ weigh size l
  unfolding weigh retain
  weigh-retain-le p [] = omega arith
  weigh-retain-le p (e ∷ l) = ground (arith, weigh-retain-le p l)

  pub trim_step :
      (limit : ℕ) (e : Entry V) (l : List (Entry V))
      → trim size limit (e ∷ l)
        ≡ (if gt64 limit 0 && ltb limit (weigh size (e ∷ l)) then trim size limit l else e ∷ l)
  unfolding trim
  trim_step limit e l = ground arith

  -- Under a positive limit, what a trim leaves meets it.
  pub weigh-trim-le :
      (limit : ℕ) (l : List (Entry V))
      → gt64 limit 0 ≡ true
      → weigh size (trim size limit l) ≤ limit
  unfolding weigh trim
  weigh-trim-le limit [] h = omega arith
  weigh-trim-le limit (e ∷ l) h = ground (arith, weigh-trim-le limit l h)

  -- A trim keeps an end of the sequence.
  pub trim_suffix :
      (limit : ℕ) (l : List (Entry V)) → (front : List (Entry V)) × (front ++ trim size limit l ≡ l)
  unfolding trim
  trim_suffix limit [] = ([], refl)
  trim_suffix limit (e ∷ l) = elim (Bool-cases (gt64 limit 0 && ltb limit (weigh size (e ∷ l)))) [
    | inr fits ↦ ([], trim_step limit e l ∙ rw fits)
    | inl over ↦
        let (front, eq) = trim_suffix limit l in (e ∷ front, ground (arith, trim_step limit e l))
  ]

  -- An entry at the end that fits by itself survives the trim.
  pub find-trim_last :
      (limit : ℕ) (k : Str) (e : Entry V) (l : List (Entry V))
      → e.key ≡ k
      → find k l ≡ none
      → length e.key + size e.value ≤ limit
      → find k (trim size limit (l ++ e ∷ [])) ≡ some e
  unfolding find trim weigh
  find-trim_last limit k e [] p h fits = ground arith
  find-trim_last limit k e (x ∷ l) p h fits =
      ground (arith, find-trim_last limit k e l p, find-append k l e)

  -- What is found weighs, together with what is left, no more than the whole.
  weigh-without_found :
      (k : Str) (l : List (Entry V)) {e : Entry V}
      → find k l ≡ some e
      → weigh size (without k l) + length e.key + size e.value ≤ weigh size l
  unfolding find weigh retain
  weigh-without_found k [] h = cc
  weigh-without_found k (x ∷ l) {e} h =
      ground (arith, weigh-without_found k l {e = e}, weigh-retain-le (differs k) l)

  pub weigh-read-le :
      (k : Str) (now : ℕ) (l : List (Entry V)) → weigh size (read k now l) ≤ weigh size l
  unfolding read weigh
  weigh-read-le k now l = elim (Option-cases (find k l)) [
    | inl missing ↦ rw (missing, read) (omega arith)
    | inr (e, found) ↦ ground (
      arith,
      weigh-without_found k l {e = e} found,
      weigh-retain-le (differs k) l,
      weigh-append (without k l) (e ∷ []),
    )
  ]

  find_absent-trim :
      (j : Str) (limit : ℕ) (l : List (Entry V))
      → find j l ≡ none
      → find j (trim size limit l) ≡ none
  unfolding find trim
  find_absent-trim j limit [] h = refl
  find_absent-trim j limit (x ∷ l) h = ground (arith, find_absent-trim j limit l)

  pub find-trim :
      (j : Str) (limit : ℕ) (l : List (Entry V))
      → Once l
      → (find j (trim size limit l) ≡ none) ⊎ (find j (trim size limit l) ≡ find j l)
  unfolding find trim
  find-trim j limit [] h = inl refl
  find-trim j limit (x ∷ l) h = ground (arith, find-trim j limit l h.1, find_absent-trim j limit l)

  -- A write of one key hides some entries of the others and changes none.
  pub find-write_ne :
      (j : Str) (limit : ℕ) (e : Entry V) (later : ℕ) (l : List (Entry V))
      → Once l
      → e.key ≢ j
      → (find j (write size limit e later l) ≡ none)
        ⊎ (find j (write size limit e later l) ≡ find j l)
  unfolding write
  find-write_ne j limit e later l h ne =
      let stored = without e.key l ++ e ∷ [] in
      let once =
        append-Once (without e.key l) e (retain-Once (differs e.key) l h)
          (find-without_self e.key l) in
      ground (
        arith,
        find-trim j limit (live later stored) (retain-Once (is_live later) stored once),
        find-retain j (is_live later) stored once,
        find-append_ne j (without e.key l) e ne,
        find-without_ne j e.key l (λ p. ne (sym p)),
      )

  -- An entry that fits the limit by itself and is alive is found after its write.
  pub find-write_self :
      (limit : ℕ) (e : Entry V) (later : ℕ) (l : List (Entry V))
      → is_past later e.deadline ≡ false
      → length e.key + size e.value ≤ limit
      → find e.key (write size limit e later l) ≡ some e
  unfolding write
  find-write_self limit e later l alive fits = rw (live-last later (without e.key l) e alive) (
      find-trim_last limit e.key e (live later (without e.key l)) refl
        (find_absent-retain e.key (is_live later) (without e.key l) (find-without_self e.key l))
        fits)
