-- ===== src/Peers/Watch/Keys.antt =====
-- The keys of nodes in etcd, as registry/register.go writes and peers.go reads them.
use locache.Base.{
  ℕ, ◌≡◌, ◌≢◌, inl, inr, refl, sym, ◌∙◌, ap, if_pos, Option, none, some, if◌then◌else◌, [], ◌∷◌,
  ◌++◌, Bool, arith,
}
use locache.Base.Str.{Str, str_dec}
use locache.Base.Map.{lookup, insert, delete, lookup-insert, lookup-delete}
use locache.Registry.{service_prefix, service_key}
use locache.Peers.{ClientPicker, after_prefix, parse_addr_from_key, is_empty}
use locache.Peers.Changes.{add_member, remove_member}
use locache.Peers.Invariant.{added, removed, add_member-cases, remove_member-cases}
use locache.Peers.Replace.{some-none}
use locache.Peers.Watch.{put_event, delete_event, deleted_addr, handle}

after_prefix_self : (prefix rest : Str) → after_prefix prefix (prefix ++ rest) ≡ rest
unfolding after_prefix
after_prefix_self [] rest = refl
after_prefix_self (b ∷ prefix) rest = ground (arith, after_prefix_self prefix rest)

-- The address that a node is registered with is read back from its key, for every name of the service
-- and every address.
pub parse_addr_from_key-service_key :
    (svc_name addr : Str) → parse_addr_from_key (service_key svc_name addr) svc_name ≡ addr
unfolding parse_addr_from_key service_key
parse_addr_from_key-service_key svc_name addr = after_prefix_self (service_prefix svc_name) addr

after_add :
    (dials : Str → Bool) (b : ℕ) (addr : Str) (p : ClientPicker)
    → lookup (b ∷ addr) p.members ≡ none
    → add_member dials (b ∷ addr) p ≡ added dials (b ∷ addr) p
after_add dials b addr p new_one = elim (add_member-cases dials (b ∷ addr) p) [
  | inl (_, inl e) ↦ absurd (full e)
  | inl (_, inr e) ↦ absurd (some-none (sym e ∙ new_one))
  | inr (e, _) ↦ e
]
  where
    full : ◌≡◌ {A = Str} (b ∷ addr) [] → ⊥
    full e = cc

after_remove :
    (b : ℕ) (addr : Str) (p : ClientPicker)
    → (b ∷ addr) ≢ p.self_addr
    → lookup (b ∷ addr) p.members ≡ some tt
    → remove_member (b ∷ addr) p ≡ removed (b ∷ addr) p
after_remove b addr p other there = elim (remove_member-cases (b ∷ addr) p) [
  | inl (_, inl e) ↦ absurd (full e)
  | inl (_, inr (inl e)) ↦ absurd (other e)
  | inl (_, inr (inr e)) ↦ absurd (some-none (sym there ∙ e))
  | inr (e, _) ↦ e
]
  where
    full : ◌≡◌ {A = Str} (b ∷ addr) [] → ⊥
    full e = cc

blank_addr : (a previous : Str) → a ≡ [] → (if is_empty a then previous else a) ≡ previous
blank_addr a previous e = ap (λ c. if is_empty c then previous else c) e

-- A key that names an address tells of its deletion, whatever previous value comes with it; another one
-- does by its previous value.
deleted_addr_named :
    (svc_name key : Str) (b : ℕ) (addr : Str) (previous : Option Str)
    → parse_addr_from_key key svc_name ≡ b ∷ addr
    → deleted_addr svc_name key previous ≡ b ∷ addr
deleted_addr_named svc_name key b addr none e = e
deleted_addr_named svc_name key b addr (some previous) e =
    ap (λ c. if is_empty c then previous else c) e

-- The put of a key with the address of another node, not a member before, makes it a member. Both the
-- deletion of the key that the node registers with, whatever previous value comes with it, and that of a
-- key that names no address, with the address as the previous value, leave the members from before the
-- put.
pub handle-service_key :
    (dials : Str → Bool) (b : ℕ) (addr key blank : Str) (previous : Option Str) (p : ClientPicker)
    → (b ∷ addr) ≢ p.self_addr
    → lookup (b ∷ addr) p.members ≡ none
    → parse_addr_from_key blank p.svc_name ≡ []
    → let q = handle dials (put_event (key, b ∷ addr)) p in
      (lookup (b ∷ addr) q.members ≡ some tt)
      × ((j : Str)
          → lookup j
              (handle dials (delete_event (service_key p.svc_name (b ∷ addr)) previous) q).members
            ≡ lookup j p.members)
      × ((j : Str)
          → lookup j (handle dials (delete_event blank (some (b ∷ addr))) q).members
            ≡ lookup j p.members)
unfolding handle
handle-service_key dials b addr key blank previous p other new_one no_addr = (
  member,
  back (deleted_addr q.svc_name (service_key p.svc_name (b ∷ addr)) previous)
      (deleted_addr_named q.svc_name (service_key p.svc_name (b ∷ addr)) b addr previous named),
  back (deleted_addr q.svc_name blank (some (b ∷ addr))) (
      blank_addr (parse_addr_from_key blank q.svc_name) (b ∷ addr)
        (ap (λ (r : ClientPicker). parse_addr_from_key blank r.svc_name) made ∙ no_addr)),
)
  where
    q : ClientPicker
    q = add_member dials (b ∷ addr) p

    made : q ≡ added dials (b ∷ addr) p
    made = after_add dials b addr p new_one

    member : lookup (b ∷ addr) q.members ≡ some tt
    member =
        ap (λ (r : ClientPicker). lookup (b ∷ addr) r.members) made
        ∙ lookup-insert (b ∷ addr) (b ∷ addr) tt p.members
        ∙ if_pos (str_dec (b ∷ addr) (b ∷ addr)) refl (some tt) (lookup (b ∷ addr) p.members)

    named : parse_addr_from_key (service_key p.svc_name (b ∷ addr)) q.svc_name ≡ b ∷ addr
    named =
        ap
          (λ (r : ClientPicker). parse_addr_from_key (service_key p.svc_name (b ∷ addr)) r.svc_name)
          made
        ∙ parse_addr_from_key-service_key p.svc_name (b ∷ addr)

    gone : remove_member (b ∷ addr) q ≡ removed (b ∷ addr) q
    gone =
        after_remove b addr q (λ e. other (e ∙ ap (λ (r : ClientPicker). r.self_addr) made)) member

    back :
        (a : Str)
        → a ≡ b ∷ addr
        → (j : Str) → lookup j (remove_member a q).members ≡ lookup j p.members
    back a named_so j =
        ap (λ d. lookup j (remove_member d q).members) named_so
        ∙ ap (λ (r : ClientPicker). lookup j r.members) gone
        ∙ ap (λ (r : ClientPicker). lookup j (delete (b ∷ addr) r.members)) made
        ∙ lookup-delete j (b ∷ addr) (insert (b ∷ addr) tt p.members)
        ∙ ground (arith, lookup-insert j (b ∷ addr) tt p.members)
