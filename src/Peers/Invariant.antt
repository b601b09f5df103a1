-- ===== src/Peers/Invariant.antt =====
-- The invariant of ClientPicker of peers.go, and the single changes of its members.
use locache.Base.{
  ℕ, ◌≡◌, ◌≢◌, ◌⊎◌, inl, inr, refl, sym, ◌∙◌, ap, subst, Option, none, some, [], ◌∷◌, ◌++◌, Bool,
  true, false, not, ◌||◌, if_pos, if_neg, if◌then◌else◌, arith, Bool-cases, Option-cases,
}
use locache.Base.Str.{Str, str_dec}
use locache.Base.Map.{
  Map, IsMap, lookup, insert, delete, lookup-insert, lookup-delete, insert-IsMap, delete-IsMap,
}
use locache.ConsistentHash.{Ring, Config}
use locache.ConsistentHash
use locache.ConsistentHash.Invariant.{IsRing}
use locache.ConsistentHash.Membership.{
  add-IsRing, remove-IsRing, add-nodes, remove-nodes, add-config, remove-config,
}
use locache.Peers.{Client, ClientPicker, new_client, is_absent, is_text}
use locache.Base.Words.{add64}
use locache.Peers.Dialled.{IsDialled, delete-IsDialled, with_client-IsDialled}
use locache.Peers.Changes.{fresh_ring, add_member, remove_member, with_client, listed}

-- The ring is well-formed, with the configuration that the picker was made with, and has exactly the
-- members; this node is one, and no member is named by the empty text; each client is of a member, but
-- not of this node, and is connected to the address that it stands under.
pub record IsValid (crc : Str → ℕ) (p : ClientPicker) : Type 0 where
  pub is_ring : IsRing p.ring
  pub config : p.ring.config ≡ (fresh_ring crc p.hash_replicas).config
  pub same : (j : Str) → lookup j p.ring.nodes ≡ lookup j p.members
  pub once : IsMap p.members
  pub self : lookup p.self_addr p.members ≡ some tt
  pub named : lookup [] p.members ≡ none
  pub known :
      (a : Str) (c : Client)
      → lookup a p.clients ≡ some c
      → (lookup a p.members ≡ some tt) × (a ≢ p.self_addr)
  pub dialled : IsDialled p.clients

-- The picker with one member more, and with one fewer.
abbrev pub added : (Str → Bool) → Str → ClientPicker → ClientPicker
added dials addr p = record p {
  members = insert addr tt p.members;
  ring = (ConsistentHash.add (addr ∷ []) p.ring).0;
  clients = with_client dials addr p;
  epoch = add64 p.epoch 1;
}

abbrev pub removed : Str → ClientPicker → ClientPicker
removed addr p = record p {
  members = delete addr p.members;
  ring = (ConsistentHash.remove addr p.ring).0;
  clients = delete addr p.clients;
  epoch = add64 p.epoch 1;
  closed_clients = p.closed_clients ++ listed (lookup addr p.clients);
}

present : (m : Map (Unit {0})) (j : Str) → is_absent (lookup j m) ≡ false → lookup j m ≡ some tt
present m j h = elim (Option-cases (lookup j m)) [ inl e ↦ absurd (ground arith) | inr (u, e) ↦ e ]

absent : (m : Map (Unit {0})) (j : Str) → is_absent (lookup j m) ≡ true → lookup j m ≡ none
absent m j h = elim (Option-cases (lookup j m)) [ inl e ↦ e | inr (u, e) ↦ absurd (ground arith) ]

-- The two outcomes of `addMember`: the address is empty or known, or it becomes a member.
pub add_member-cases :
    (dials : Str → Bool) (addr : Str) (p : ClientPicker)
    → ((add_member dials addr p ≡ p) × ((addr ≡ []) ⊎ (lookup addr p.members ≡ some tt)))
      ⊎ ((add_member dials addr p ≡ added dials addr p)
          × ((addr ≢ []) × (lookup addr p.members ≡ none)))
unfolding add_member
add_member-cases dials [] p = inl (refl, inl refl)
add_member-cases dials (b ∷ name) p = elim (Bool-cases (is_absent (lookup (b ∷ name) p.members))) [
  | inl new_one ↦ inr (
    ap (λ c. if not c then p else added dials (b ∷ name) p) new_one,
    ((λ e. cc), absent p.members (b ∷ name) new_one),
  )
  | inr old ↦ inl (
    ap (λ c. if not c then p else added dials (b ∷ name) p) old,
    inr (present p.members (b ∷ name) old),
  )
]

-- The two outcomes of `removeMember`: the address is empty, this node's or unknown, or it goes.
pub remove_member-cases :
    (addr : Str) (p : ClientPicker)
    → ((remove_member addr p ≡ p)
        × ((addr ≡ []) ⊎ ((addr ≡ p.self_addr) ⊎ (lookup addr p.members ≡ none))))
      ⊎ ((remove_member addr p ≡ removed addr p)
          × ((addr ≢ p.self_addr) × (lookup addr p.members ≡ some tt)))
unfolding remove_member
remove_member-cases [] p = inl (refl, inl refl)
remove_member-cases (b ∷ name) p = elim (str_dec (b ∷ name) p.self_addr) [
  | yes e ↦ inl (own e, inr (inl e))
  | no ne ↦ elim (Bool-cases (is_absent (lookup (b ∷ name) p.members))) [
    | inl gone ↦ inl (
      if_not ne ∙ ap (λ c. if c then p else removed (b ∷ name) p) gone,
      inr (inr (absent p.members (b ∷ name) gone)),
    )
    | inr there ↦ inr (
      if_not ne ∙ ap (λ c. if c then p else removed (b ∷ name) p) there,
      (ne, present p.members (b ∷ name) there),
    )
  ]
]
  where
    tested : Bool → ClientPicker
    tested c = if c || is_absent (lookup (b ∷ name) p.members) then p else removed (b ∷ name) p

    own : (b ∷ name) ≡ p.self_addr → tested (is_text (b ∷ name) p.self_addr) ≡ p
    own e = ap tested (if_pos (str_dec (b ∷ name) p.self_addr) e true false)

    if_not : (b ∷ name) ≢ p.self_addr → tested (is_text (b ∷ name) p.self_addr) ≡ tested false
    if_not ne = ap tested (if_neg (str_dec (b ∷ name) p.self_addr) ne true false)

-- Whether a new member gets a client.
with_client-cases :
    (dials : Str → Bool) (addr : Str) (p : ClientPicker)
    → (with_client dials addr p ≡ p.clients)
      ⊎ ((addr ≢ p.self_addr)
          × ((c : Client) × (with_client dials addr p ≡ insert addr c p.clients)))
unfolding with_client
with_client-cases dials addr p = elim (str_dec addr p.self_addr) [
  | yes e ↦ inl (ap tested (if_pos (str_dec addr p.self_addr) e true false))
  | no ne ↦ elim (Option-cases (new_client (dials addr) addr p.rpc_to)) [
    | inl failed ↦
        inl (ap tested (if_neg (str_dec addr p.self_addr) ne true false) ∙ ap made failed)
    | inr (c, works) ↦
        inr (ne, (c, ap tested (if_neg (str_dec addr p.self_addr) ne true false) ∙ ap made works))
  ]
]
  where
    made : Option Client → Map Client
    made o = elim o [ none ↦ p.clients | some c ↦ insert addr c p.clients ]

    tested : Bool → Map Client
    tested b = if b then p.clients else made (new_client (dials addr) addr p.rpc_to)

module _ (crc : Str → ℕ) (dials : Str → Bool) (p : ClientPicker) (v : IsValid crc p) where
  with_client-known :
      (addr a : Str) (c : Client)
      → lookup a (with_client dials addr p) ≡ some c
      → (lookup a (insert addr tt p.members) ≡ some tt) × (a ≢ p.self_addr)
  with_client-known addr a c e = elim (with_client-cases dials addr p) [
    | inl same ↦ old (ap (lookup a) (sym same) ∙ e)
    | inr (foreign, (d, more)) ↦ elim (str_dec addr a) [
      | yes e' ↦ (
        lookup-insert a addr tt p.members
            ∙ if_pos (str_dec addr a) e' (some tt) (lookup a p.members),
        (λ k. foreign (e' ∙ k)),
      )
      | no ne ↦ old (
          sym (if_neg (str_dec addr a) ne (some d) (lookup a p.clients))
          ∙ sym (lookup-insert a addr d p.clients)
          ∙ ap (lookup a) (sym more)
          ∙ e)
    ]
  ]
    where
      old :
          lookup a p.clients ≡ some c
          → (lookup a (insert addr tt p.members) ≡ some tt) × (a ≢ p.self_addr)
      old k = let h = v.known a c k in (ground (arith, lookup-insert a addr tt p.members, h.0), h.1)

  added-IsValid : (addr : Str) → addr ≢ [] → IsValid crc (added dials addr p)
  added-IsValid [] full = absurd (full refl)
  added-IsValid (b ∷ name) full = record {
    is_ring = add-IsRing ((b ∷ name) ∷ []) p.ring v.is_ring;
    config = add-config ((b ∷ name) ∷ []) p.ring ∙ v.config;
    same = λ j.
        add-nodes ((b ∷ name) ∷ []) p.ring j
        ∙ ground (arith, v.same j, lookup-insert j (b ∷ name) tt p.members);
    once = insert-IsMap (b ∷ name) tt p.members v.once;
    self = ground (arith, lookup-insert p.self_addr (b ∷ name) tt p.members, v.self);
    named = ground (arith, lookup-insert [] (b ∷ name) tt p.members, v.named);
    known = with_client-known (b ∷ name);
    dialled = with_client-IsDialled dials p (b ∷ name) v.dialled;
  }

  -- A member that is added keeps the invariant; so does a refusal.
  pub add_member-IsValid : (addr : Str) → IsValid crc (add_member dials addr p)
  add_member-IsValid addr = elim (add_member-cases dials addr p) [
    | inl (same, _) ↦ subst (IsValid crc) (sym same) v
    | inr (more, (full, _)) ↦ subst (IsValid crc) (sym more) (added-IsValid addr full)
  ]

  removed-IsValid : (addr : Str) → addr ≢ p.self_addr → IsValid crc (removed addr p)
  removed-IsValid addr other = record {
    is_ring = remove-IsRing addr p.ring v.is_ring;
    config = remove-config addr p.ring ∙ v.config;
    same = λ j.
        remove-nodes addr p.ring j v.is_ring
        ∙ ground (arith, v.same j, lookup-delete j addr p.members);
    once = delete-IsMap addr p.members v.once;
    self = ground (arith, lookup-delete p.self_addr addr p.members, v.self);
    named = ground (arith, lookup-delete [] addr p.members, v.named);
    known = λ a c e.
        let k = v.known a c (ground (arith, lookup-delete a addr p.clients)) in
        (ground (arith, lookup-delete a addr p.members, lookup-delete a addr p.clients, k.0), k.1);
    dialled = delete-IsDialled addr p.clients v.dialled;
  }

  -- A member that is removed keeps the invariant; so does a refusal.
  pub remove_member-IsValid : (addr : Str) → IsValid crc (remove_member addr p)
  remove_member-IsValid addr = elim (remove_member-cases addr p) [
    | inl (same, _) ↦ subst (IsValid crc) (sym same) v
    | inr (fewer, (other, _)) ↦ subst (IsValid crc) (sym fewer) (removed-IsValid addr other)
  ]
