-- ===== src/Group/Table/Ends.antt =====
-- How groups of group.go come and go: `NewGroup` and `DestroyAllGroups` on the table.
use locache.Base.{
  ℕ, ◌≡◌, ◌≢◌, inl, inr, refl, sym, ◌∙◌, ap, subst, Option, none, some, List, [], ◌∷◌, map, true,
  false, if_pos, if_neg, arith, ℕ_discrete, All, Option-cases,
}
use locache.Base.Str.{Str, str_dec}
use locache.Base.Map.{Map, lookup}
use locache.Group.State.{Result, M}
use locache.Group.Table.{
  Instance, Groups, GroupOption, Draft, close, publish, apply_options, main_or_new, new_group,
  instance_of, get_group, close_each, destroy_all_groups,
}
use locache.Group.Table.Laws.{
  some_inj, none-some, IsTable, close-IsTable, close_closed, close_other, close_listed,
}
use locache.Group.Table.Publish.{
  found_new, found_other, publish-IsTable, publish-table, publish_closes,
}

pair_inj :
    {W : Type 0} {x y : Groups W × ℕ} → ◌≡◌ {A = Option (Groups W × ℕ)} (some x) (some y) → x ≡ y
pair_inj e = cc

-- Where every group in the table is open and stands under its own name: the group that `NewGroup`
-- makes, if it ends, is open, and stands in the table under its name; the group that it replaces, if
-- any, is closed; other names keep their groups; and still every group in the table is open and stands
-- under its own name.
pub new_group-get_group :
    {W : Type 0} (name : Str) (cache_bytes : ℕ) (clock : M W ℕ)
    (getter : Option (Str → M W (Result Str))) (world : W) (opts : List (GroupOption W))
    (gs gs' : Groups W) (p : ℕ)
    → IsTable gs
    → new_group name cache_bytes clock getter world opts gs ≡ some (gs', p)
    → IsTable gs'
      × (get_group name gs' ≡ some p)
      × ((old : ℕ) → get_group name gs ≡ some old → (gs'.heap old).state.closed ≡ true)
      × ((j : Str) → name ≢ j → get_group j gs' ≡ get_group j gs)
unfolding new_group get_group
new_group-get_group {W} name cache_bytes clock getter world opts gs gs' p t e =
    elim (Option-cases (apply_options opts bare)) [
      | inl none_made ↦ absurd (ground arith)
      | inr (d, drafted) ↦ elim (Option-cases (main_or_new cache_bytes d.main_cache)) [
        | inl no_cache ↦ absurd (ground arith)
        | inr (c, made) ↦
            done (instance_of name clock getter world d c) refl refl
              (pair_inj (sym (rw (drafted, made, new_group) refl) ∙ e))
      ]
    ]
  where
    bare : Draft W
    bare = record {
      main_cache = none;
      near_cache = none;
      near_ttl = 0;
      expiration = 0;
      peers = none;
    }

    done :
        (i : Instance W)
        → i.state.name ≡ name
        → i.state.closed ≡ false
        → ◌≡◌ {A = Groups W × ℕ} (publish name i gs, gs.next) (gs', p)
        → IsTable gs'
          × (lookup name gs'.table ≡ some p)
          × ((old : ℕ) → lookup name gs.table ≡ some old → (gs'.heap old).state.closed ≡ true)
          × ((j : Str) → name ≢ j → lookup j gs'.table ≡ lookup j gs.table)
    done i at fresh same =
        subst
          (λ (r : Groups W × ℕ).
            IsTable r.0
            × (lookup name r.0.table ≡ some r.1)
            × ((old : ℕ) → lookup name gs.table ≡ some old → (r.0.heap old).state.closed ≡ true)
            × ((j : Str) → name ≢ j → lookup j r.0.table ≡ lookup j gs.table))
          same
          (
            publish-IsTable gs t name i at fresh,
            ap (lookup name) (publish-table gs t name i at fresh) ∙ found_new gs t name i at fresh,
            publish_closes gs t name i at fresh,
            (λ j ne.
                ap (lookup j) (publish-table gs t name i at fresh)
                ∙ found_other gs t name i at fresh j ne),
          )

lookup-values :
    (m : Map ℕ) (j : Str) (q : ℕ) → lookup j m ≡ some q → All (λ p. q ≢ p) (map (λ e. e.1) m) → ⊥
unfolding lookup
lookup-values [] j q e h = none-some e
lookup-values ((k, p) ∷ m) j q e h = elim (str_dec k j) [
  | yes same ↦ h.0 (sym (some_inj (sym (if_pos (str_dec k j) same (some p) (lookup j m)) ∙ e)))
  | no ne ↦ lookup-values m j q (sym (if_neg (str_dec k j) ne (some p) (lookup j m)) ∙ e) h.1
]

module _ {W : Type 0} where
  close_each-IsTable : (ps : List ℕ) (gs : Groups W) → IsTable gs → IsTable (close_each ps gs)
  unfolding close_each
  close_each-IsTable [] gs t = t
  close_each-IsTable (p ∷ ps) gs t = close_each-IsTable ps (close p gs) (close-IsTable gs p t)

  -- What is listed after the loop was so before, and is none of those that it closes.
  close_each_listed :
      (ps : List ℕ) (gs : Groups W) (j : Str) (q : ℕ)
      → IsTable gs
      → lookup j (close_each ps gs).table ≡ some q
      → (lookup j gs.table ≡ some q) × All (λ p. q ≢ p) ps
  unfolding close_each
  close_each_listed [] gs j q t e = (e, tt)
  close_each_listed (p ∷ ps) gs j q t e =
      let later = close_each_listed ps (close p gs) j q (close-IsTable gs p t) e in
      let here = close_listed gs p j q t later.0 in (here.0, (here.1, later.1))

  close_stays :
      (p q : ℕ) (gs : Groups W)
      → (gs.heap q).state.closed ≡ true
      → ((close p gs).heap q).state.closed ≡ true
  close_stays p q gs e = elim (ℕ_discrete p q) [
    | yes same ↦ ap (λ n. ((close p gs).heap n).state.closed) (sym same) ∙ close_closed gs p
    | no ne ↦ ap (λ (i : Instance W). i.state.closed) (close_other gs p q ne) ∙ e
  ]

  close_each_stays :
      (ps : List ℕ) (q : ℕ) (gs : Groups W)
      → (gs.heap q).state.closed ≡ true
      → ((close_each ps gs).heap q).state.closed ≡ true
  unfolding close_each
  close_each_stays [] q gs e = e
  close_each_stays (p ∷ ps) q gs e = close_each_stays ps q (close p gs) (close_stays p q gs e)

  close_each_closes :
      (ps : List ℕ) (q : ℕ) (gs : Groups W)
      → (All (λ p. q ≢ p) ps → ⊥)
      → ((close_each ps gs).heap q).state.closed ≡ true
  unfolding close_each
  close_each_closes [] q gs there = absurd (there tt)
  close_each_closes (p ∷ ps) q gs there = elim (ℕ_discrete p q) [
    | yes same ↦
        close_each_stays ps q (close p gs)
          (ap (λ n. ((close p gs).heap n).state.closed) (sym same) ∙ close_closed gs p)
    | no ne ↦ close_each_closes ps q (close p gs) (λ h. there ((λ e. ne (sym e)), h))
  ]

  -- Where every group in the table is open and stands under its own name: after `DestroyAllGroups` no
  -- name has a group, and every group that had one is closed.
  pub destroy_all_groups-get_group :
      (gs : Groups W)
      → IsTable gs
      → ((j : Str) → get_group j (destroy_all_groups gs) ≡ none)
        × ((j : Str) (p : ℕ)
            → get_group j gs ≡ some p
            → ((destroy_all_groups gs).heap p).state.closed ≡ true)
  unfolding get_group destroy_all_groups
  destroy_all_groups-get_group gs t = (
    (λ j. elim (Option-cases (lookup j (destroy_all_groups gs).table)) [
      | inl e ↦ e
      | inr (q, e) ↦
          let (there, others) = close_each_listed (map (λ e. e.1) gs.table) gs j q t e in
          absurd (lookup-values gs.table j q there others)
    ]),
    (λ j p e. close_each_closes (map (λ e. e.1) gs.table) p gs (lookup-values gs.table j p e)),
  )
