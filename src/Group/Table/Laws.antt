-- ===== src/Group/Table/Laws.antt =====
-- The table of groups in group.go: what it lists.
use locache.Base.{
  ℕ, ◌<◌, ◌≡◌, ◌≢◌, ◌⊎◌, inl, inr, refl, sym, ◌∙◌, ap, subst, Option, none, some, Bool, true, false,
  if_pos, if_neg, if◌then◌else◌, arith, ℕ_discrete, Bool-cases, ◌==◌,
}
use locache.Base.Str.{Str, str_dec}
use locache.Base.Map.{Map, IsMap, lookup, delete, lookup-delete, delete-IsMap}
use locache.Group.Local.{is_pointer}
use locache.Group.Table.{Instance, Groups, set_heap, shut, close}

pub set_heap_self :
    {W : Type 0} (f : ℕ → Instance W) (p : ℕ) (i : Instance W) → set_heap f p i p ≡ i
set_heap_self f p i = if_pos (ℕ_discrete p p) refl i (f p)

pub set_heap_other :
    {W : Type 0} (f : ℕ → Instance W) (p q : ℕ) (i : Instance W) → p ≢ q → set_heap f p i q ≡ f q
set_heap_other f p q i ne = if_neg (ℕ_discrete p q) ne i (f q)

pub some_inj : {p q : ℕ} → ◌≡◌ {A = Option ℕ} (some p) (some q) → p ≡ q
some_inj e = cc

pub none-some : {p : ℕ} → ◌≡◌ {A = Option ℕ} none (some p) → ⊥
none-some e = cc

true-false : ◌≡◌ {A = Bool} true false → ⊥
true-false e = cc

-- A group that the table lists under a name: it has that name, and is open.
pub record IsListed {W : Type 0} (gs : Groups W) (name : Str) (p : ℕ) : Type 0 where
  pub allocated : p < gs.next
  pub named : (gs.heap p).state.name ≡ name
  pub opened : (gs.heap p).state.closed ≡ false

-- Every group in the table is open, and stands under its own name.
pub record IsTable {W : Type 0} (gs : Groups W) : Type 0 where
  pub once : IsMap gs.table
  pub listed : (name : Str) (p : ℕ) → lookup name gs.table ≡ some p → IsListed gs name p

module _ {W : Type 0} (gs : Groups W) (p : ℕ) where
  abbrev pub without : Map ℕ
  without =
      if is_pointer p (lookup (gs.heap p).state.name gs.table)
      then delete (gs.heap p).state.name gs.table
      else gs.table

  abbrev pub closed_one : Groups W
  closed_one = record gs {
    heap = set_heap gs.heap p (record { state = shut (gs.heap p).state; env = (gs.heap p).env });
    table = without;
  }

  -- The two outcomes of `Close`.
  pub close-cases :
      (((gs.heap p).state.closed ≡ true) × (close p gs ≡ gs))
      ⊎ (((gs.heap p).state.closed ≡ false) × (close p gs ≡ closed_one))
  unfolding close
  close-cases = elim (Bool-cases (gs.heap p).state.closed) [
    | inl e ↦ inl (e, ap (λ b. if b then gs else closed_one) e)
    | inr e ↦ inr (e, ap (λ b. if b then gs else closed_one) e)
  ]

  without-IsMap : IsMap gs.table → IsMap without
  without-IsMap h = go (is_pointer p (lookup (gs.heap p).state.name gs.table))
    where
      go : (b : Bool) → IsMap (if b then delete (gs.heap p).state.name gs.table else gs.table)
      go true = delete-IsMap (gs.heap p).state.name gs.table h
      go false = h

  -- What is left was there.
  without_sub : (j : Str) (q : ℕ) → lookup j without ≡ some q → lookup j gs.table ≡ some q
  without_sub j q = go (is_pointer p (lookup (gs.heap p).state.name gs.table))
    where
      go :
          (b : Bool)
          → lookup j (if b then delete (gs.heap p).state.name gs.table else gs.table) ≡ some q
          → lookup j gs.table ≡ some q
      go true e = ground (arith, lookup-delete j (gs.heap p).state.name gs.table, e)
      go false e = e

  -- The group under its own name is not left.
  without_gone :
      lookup (gs.heap p).state.name gs.table ≡ some p → lookup (gs.heap p).state.name without ≡ none
  without_gone e =
      ap
        (λ b.
          lookup (gs.heap p).state.name
            (if b then delete (gs.heap p).state.name gs.table else gs.table))
        (ap (is_pointer p) e ∙ same)
      ∙ lookup-delete (gs.heap p).state.name (gs.heap p).state.name gs.table
      ∙ if_pos (str_dec (gs.heap p).state.name (gs.heap p).state.name) refl none
          (lookup (gs.heap p).state.name gs.table)
    where
      same : (p == p) ≡ true
      same = ground arith

  -- Other names keep what they lead to.
  pub without_other : (j : Str) → (gs.heap p).state.name ≢ j → lookup j without ≡ lookup j gs.table
  without_other j ne = go (is_pointer p (lookup (gs.heap p).state.name gs.table))
    where
      go :
          (b : Bool)
          → lookup j (if b then delete (gs.heap p).state.name gs.table else gs.table)
            ≡ lookup j gs.table
      go true = ground (arith, lookup-delete j (gs.heap p).state.name gs.table, ne)
      go false = refl

  closed_one-IsTable : IsTable gs → IsTable closed_one
  closed_one-IsTable t = record {
    once = without-IsMap t.once;
    listed = λ j q e. still j q e (t.listed j q (without_sub j q e)) (ℕ_discrete p q);
  }
    where
      still :
          (j : Str) (q : ℕ)
          → lookup j without ≡ some q
          → IsListed gs j q
          → Dec (p ≡ q)
          → IsListed closed_one j q
      still j q e h (yes same) =
          let here = ap (λ n. (gs.heap n).state.name) same ∙ h.named in
          absurd (
            none-some (
              sym (
                without_gone
                  (ap (λ n. lookup n gs.table) here ∙ without_sub j q e ∙ ap some (sym same)))
              ∙ ap (λ n. lookup n without) here
              ∙ e))
      still j q e h (no other) =
          let kept =
            set_heap_other gs.heap p q
              (record { state = shut (gs.heap p).state; env = (gs.heap p).env }) other in
          record {
            allocated = h.allocated;
            named = ap (λ (i : Instance W). i.state.name) kept ∙ h.named;
            opened = ap (λ (i : Instance W). i.state.closed) kept ∙ h.opened;
          }

  pub close-IsTable : IsTable gs → IsTable (close p gs)
  close-IsTable t = elim close-cases [
    | inl (_, e) ↦ subst IsTable (sym e) t
    | inr (_, e) ↦ subst IsTable (sym e) (closed_one-IsTable t)
  ]

  pub close_closed : ((close p gs).heap p).state.closed ≡ true
  close_closed = elim close-cases [
    | inl (e, same) ↦ ap (λ (g : Groups W). (g.heap p).state.closed) same ∙ e
    | inr (_, same) ↦
        ap (λ (g : Groups W). (g.heap p).state.closed) same
        ∙ ap (λ (i : Instance W). i.state.closed)
            (set_heap_self gs.heap p
              (record { state = shut (gs.heap p).state; env = (gs.heap p).env }))
  ]

  pub close_other : (q : ℕ) → p ≢ q → (close p gs).heap q ≡ gs.heap q
  close_other q other = elim close-cases [
    | inl (_, same) ↦ ap (λ (g : Groups W). g.heap q) same
    | inr (_, same) ↦
        ap (λ (g : Groups W). g.heap q) same
        ∙ set_heap_other gs.heap p q
            (record { state = shut (gs.heap p).state; env = (gs.heap p).env }) other
  ]

  -- What is listed after a `Close` was so before, and is another group.
  pub close_listed :
      (j : Str) (q : ℕ)
      → IsTable gs
      → lookup j (close p gs).table ≡ some q
      → (lookup j gs.table ≡ some q) × (q ≢ p)
  close_listed j q t e = (before, other)
    where
      before : lookup j gs.table ≡ some q
      before = elim close-cases [
        | inl (_, same) ↦ ap (λ (g : Groups W). lookup j g.table) (sym same) ∙ e
        | inr (_, same) ↦ without_sub j q (ap (λ (g : Groups W). lookup j g.table) (sym same) ∙ e)
      ]

      other : q ≢ p
      other same = true-false (
          sym close_closed
          ∙ ap (λ n. ((close p gs).heap n).state.closed) (sym same)
          ∙ ((close-IsTable t).listed j q e).opened)
