-- ===== src/Group/Table/Publish.antt =====
-- A group that enters the table of group.go in place of another.
use locache.Base.{
  ℕ, suc, ◌<◌, ◌≡◌, ◌≢◌, ◌⊎◌, inl, inr, refl, sym, ◌∙◌, ap, subst, none, some, true, false, if_pos,
  if_neg, if◌then◌else◌, arith, Option-cases, ◌==◌,
}
use locache.Base.Str.{Str, str_dec}
use locache.Base.Map.{lookup, insert, delete, lookup-insert, insert-IsMap}
use locache.Group.Local.{is_pointer}
use locache.Group.Table.{Instance, Groups, set_heap, close, publish}
use locache.Group.Table.Laws.{
  some_inj, none-some, IsListed, IsTable, set_heap_self, set_heap_other, close-cases, close-IsTable,
  close_closed,
}

-- A new group in the table, and what it replaces.
module _ {W : Type 0} (gs : Groups W) (t : IsTable gs) (name : Str) (i : Instance W)
    (at : i.state.name ≡ name) (fresh : i.state.closed ≡ false) where
  abbrev entered : Groups W
  entered = record gs {
    table = insert name gs.next gs.table;
    heap = set_heap gs.heap gs.next i;
    next = suc gs.next;
  }

  new_here : entered.heap gs.next ≡ i
  new_here = set_heap_self gs.heap gs.next i

  old_here : (q : ℕ) → q < gs.next → entered.heap q ≡ gs.heap q
  old_here q below = set_heap_other gs.heap gs.next q i (λ e. omega (arith, e, below))

  pub found_new : lookup name entered.table ≡ some gs.next
  found_new =
      lookup-insert name name gs.next gs.table
      ∙ if_pos (str_dec name name) refl (some gs.next) (lookup name gs.table)

  pub found_other : (j : Str) → name ≢ j → lookup j entered.table ≡ lookup j gs.table
  found_other j ne =
      lookup-insert j name gs.next gs.table
      ∙ if_neg (str_dec name j) ne (some gs.next) (lookup j gs.table)

  entered-IsTable : IsTable entered
  entered-IsTable = record {
    once = insert-IsMap name gs.next gs.table t.once;
    listed = λ j q e. elim (str_dec name j) [
      | yes same ↦
          newcomer j q same (some_inj (sym found_new ∙ ap (λ n. lookup n entered.table) same ∙ e))
      | no ne ↦ resident j q (t.listed j q (sym (found_other j ne) ∙ e))
    ];
  }
    where
      newcomer : (j : Str) (q : ℕ) → name ≡ j → gs.next ≡ q → IsListed entered j q
      newcomer j q same is_new = record {
        allocated = omega (arith, is_new);
        named =
            ap (λ n. (entered.heap n).state.name) (sym is_new)
            ∙ ap (λ (k : Instance W). k.state.name) new_here
            ∙ at
            ∙ same;
        opened =
            ap (λ n. (entered.heap n).state.closed) (sym is_new)
            ∙ ap (λ (k : Instance W). k.state.closed) new_here
            ∙ fresh;
      }

      resident : (j : Str) (q : ℕ) → IsListed gs j q → IsListed entered j q
      resident j q h = record {
        allocated = omega (arith, h.allocated);
        named = ap (λ (k : Instance W). k.state.name) (old_here q h.allocated) ∙ h.named;
        opened = ap (λ (k : Instance W). k.state.closed) (old_here q h.allocated) ∙ h.opened;
      }

  -- Closing the group that was replaced leaves the table as it is.
  close_replaced :
      (old : ℕ) → lookup name gs.table ≡ some old → (close old entered).table ≡ entered.table
  close_replaced old e = elim (close-cases entered old) [
    | inl (_, same) ↦ ap (λ (g : Groups W). g.table) same
    | inr (_, same) ↦
        ap (λ (g : Groups W). g.table) same
        ∙ ap (λ b. if b then delete (entered.heap old).state.name entered.table else entered.table)
            not_it
  ]
    where
      h : IsListed gs name old
      h = t.listed name old e

      here : (entered.heap old).state.name ≡ name
      here = ap (λ (k : Instance W). k.state.name) (old_here old h.allocated) ∙ h.named

      differs : (old == gs.next) ≡ false
      differs = ground (arith, h.allocated)

      not_it : is_pointer old (lookup (entered.heap old).state.name entered.table) ≡ false
      not_it =
          ap (λ n. is_pointer old (lookup n entered.table)) here
          ∙ ap (is_pointer old) found_new
          ∙ differs

  publish-cases :
      ((lookup name gs.table ≡ none) × (publish name i gs ≡ entered))
      ⊎ ((old : ℕ) × ((lookup name gs.table ≡ some old) × (publish name i gs ≡ close old entered)))
  unfolding publish
  publish-cases = elim (Option-cases (lookup name gs.table)) [
    | inl e ↦ inl (e, rw (e, publish) refl)
    | inr (old, e) ↦ inr (old, (e, rw (e, publish) refl))
  ]

  pub publish-IsTable : IsTable (publish name i gs)
  publish-IsTable = elim publish-cases [
    | inl (_, e) ↦ subst IsTable (sym e) entered-IsTable
    | inr (old, (_, e)) ↦ subst IsTable (sym e) (close-IsTable entered old entered-IsTable)
  ]

  pub publish-table : (publish name i gs).table ≡ entered.table
  publish-table = elim publish-cases [
    | inl (_, e) ↦ ap (λ (g : Groups W). g.table) e
    | inr (old, (there, e)) ↦ ap (λ (g : Groups W). g.table) e ∙ close_replaced old there
  ]

  pub publish_closes :
      (old : ℕ)
      → lookup name gs.table ≡ some old
      → ((publish name i gs).heap old).state.closed ≡ true
  publish_closes old there = elim publish-cases [
    | inl (absent, e) ↦ absurd (none-some (sym absent ∙ there))
    | inr (q, (found, e)) ↦
        ap (λ (g : Groups W). (g.heap old).state.closed) e
        ∙ ap (λ n. ((close q entered).heap n).state.closed) (some_inj (sym there ∙ found))
        ∙ close_closed entered q
  ]
