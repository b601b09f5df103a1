-- ===== src/Peers/Watch/Epochs.antt =====
-- What the epoch of a picker of peers.go says of its members.
use locache.Base.{◌≡◌, ◌≢◌, ◌⊎◌, inl, inr, refl, sym, ◌∙◌, ap, if_pos, none, some, Bool}
use locache.Base.Words.{add64}
use locache.Base.Str.{Str, str_dec}
use locache.Base.Map.{lookup, lookup-insert, lookup-delete}
use locache.Peers.{ClientPicker}
use locache.Peers.Changes.{add_member, remove_member}
use locache.Peers.Invariant.{add_member-cases, remove_member-cases}
use locache.Peers.Replace.{some-none}
use locache.Peers.Watch.{Event, put_event, delete_event, other_event, handle}

abbrev IsMoved : ClientPicker → ClientPicker → Type 0
IsMoved p q = (q.epoch ≡ add64 p.epoch 1) × ((j : Str) × (lookup j q.members ≢ lookup j p.members))

add_member-moves :
    (dials : Str → Bool) (addr : Str) (p : ClientPicker)
    → (add_member dials addr p ≡ p) ⊎ IsMoved p (add_member dials addr p)
add_member-moves dials addr p = elim (add_member-cases dials addr p) [
  | inl (same, _) ↦ inl same
  | inr (more, (_, new_one)) ↦ inr (
    ap (λ (q : ClientPicker). q.epoch) more,
    (
      addr,
      λ e. some-none (
          sym (if_pos (str_dec addr addr) refl (some tt) (lookup addr p.members))
          ∙ sym (lookup-insert addr addr tt p.members)
          ∙ sym (ap (λ (q : ClientPicker). lookup addr q.members) more)
          ∙ e
          ∙ new_one),
    ),
  )
]

remove_member-moves :
    (addr : Str) (p : ClientPicker) → (remove_member addr p ≡ p) ⊎ IsMoved p (remove_member addr p)
remove_member-moves addr p = elim (remove_member-cases addr p) [
  | inl (same, _) ↦ inl same
  | inr (fewer, (_, there)) ↦ inr (
    ap (λ (q : ClientPicker). q.epoch) fewer,
    (
      addr,
      λ e. some-none (
          sym there
          ∙ sym e
          ∙ ap (λ (q : ClientPicker). lookup addr q.members) fewer
          ∙ lookup-delete addr addr p.members
          ∙ if_pos (str_dec addr addr) refl none (lookup addr p.members)),
    ),
  )
]

-- An event either leaves the picker as it is, or makes the epoch the next one and changes whether some
-- address is a member.
pub handle-moves :
    (dials : Str → Bool) (e : Event) (p : ClientPicker)
    → (handle dials e p ≡ p)
      ⊎ (((handle dials e p).epoch ≡ add64 p.epoch 1)
          × ((j : Str) × (lookup j (handle dials e p).members ≢ lookup j p.members)))
unfolding handle
handle-moves dials (put_event kv) p = add_member-moves dials _ p
handle-moves dials (delete_event key previous) p = remove_member-moves _ p
handle-moves dials other_event p = inl refl
