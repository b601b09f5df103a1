-- ===== src/Peers/Dialled.antt =====
-- The clients of a picker of peers.go, and the addresses that they are connected to.
use locache.Base.{
  ℕ, ◌≡◌, refl, sym, ◌∙◌, ap, subst, Option, none, some, List, [], ◌∷◌, Bool, true, false, if_pos,
  if_neg, if◌then◌else◌, All,
}
use locache.Base.Str.{Str, str_dec}
use locache.Base.Map.{Map, lookup, insert, delete}
use locache.Peers.{Client, ClientPicker, new_client, is_text}
use locache.Peers.Changes.{new_clients, with_client}

-- Each client is connected to the address that it stands under.
abbrev pub IsDialled : Map Client → Type 0
IsDialled m = All (λ (e : Str × Client). e.1.addr ≡ e.0) m

pub lookup-IsDialled :
    (a : Str) (c : Client) (m : Map Client) → IsDialled m → lookup a m ≡ some c → c.addr ≡ a
unfolding lookup
lookup-IsDialled a c [] h e = cc
lookup-IsDialled a c ((b, d) ∷ m) h e = elim (str_dec b a) [
  | yes same ↦ ap address (sym e ∙ if_pos (str_dec b a) same (some d) (lookup a m)) ∙ h.0 ∙ same
  | no other ↦
      lookup-IsDialled a c m h.1 (sym (if_neg (str_dec b a) other (some d) (lookup a m)) ∙ e)
]
  where
    address : Option Client → Str
    address o = elim o [ none ↦ [] | some b ↦ b.addr ]

pub delete-IsDialled : (a : Str) (m : Map Client) → IsDialled m → IsDialled (delete a m)
unfolding delete
delete-IsDialled a [] h = tt
delete-IsDialled a ((b, d) ∷ m) h =
    let rest = delete-IsDialled a m h.1 in
    elim (str_dec b a) [
      | yes same ↦
          subst IsDialled (sym (if_pos (str_dec b a) same (delete a m) ((b, d) ∷ delete a m))) rest
      | no other ↦
          subst IsDialled (sym (if_neg (str_dec b a) other (delete a m) ((b, d) ∷ delete a m)))
            (h.0, rest)
    ]

insert-IsDialled :
    (a : Str) (c : Client) (m : Map Client) → c.addr ≡ a → IsDialled m → IsDialled (insert a c m)
unfolding insert
insert-IsDialled a c m at h = (at, delete-IsDialled a m h)

new_client-addr :
    (connected : Bool) (addr : Str) (timeout : ℕ) (c : Client)
    → new_client connected addr timeout ≡ some c
    → c.addr ≡ addr
unfolding new_client
new_client-addr true addr timeout c e = ap address (sym e)
  where
    address : Option Client → Str
    address o = elim o [ none ↦ [] | some b ↦ b.addr ]
new_client-addr false addr timeout c e = cc

module _ (dials : Str → Bool) (p : ClientPicker) where
  with_new :
      (addr : Str) (made : Map Client) (n : Option Client)
      → new_client (dials addr) addr p.rpc_to ≡ n
      → IsDialled made
      → IsDialled (elim n [ none ↦ made | some c ↦ insert addr c made ])
  with_new addr made none e h = h
  with_new addr made (some c) e h =
      insert-IsDialled addr c made (new_client-addr (dials addr) addr p.rpc_to c e) h

  pub with_client-IsDialled :
      (addr : Str) → IsDialled p.clients → IsDialled (with_client dials addr p)
  unfolding with_client
  with_client-IsDialled addr h = go (is_text addr p.self_addr)
    where
      go :
          (b : Bool)
          → IsDialled (
              if b then p.clients else elim (new_client (dials addr) addr p.rpc_to) [
                | none ↦ p.clients
                | some c ↦ insert addr c p.clients
              ])
      go true = h
      go false = with_new addr p.clients _ refl h

  module _ (dialled : IsDialled p.clients) where
    with_known :
        (addr : Str) (made : Map Client) (o : Option Client)
        → lookup addr p.clients ≡ o
        → IsDialled made
        → IsDialled (elim o [
          | some c ↦ insert addr c made
          | none ↦ elim (new_client (dials addr) addr p.rpc_to) [
            | none ↦ made
            | some c ↦ insert addr c made
          ]
        ])
    with_known addr made (some c) e h =
        insert-IsDialled addr c made (lookup-IsDialled addr c p.clients dialled e) h
    with_known addr made none e h = with_new addr made _ refl h

    pub new_clients-IsDialled :
        (l : List Str) (made : Map Client) → IsDialled made → IsDialled (new_clients dials p l made)
    unfolding new_clients
    new_clients-IsDialled [] made h = h
    new_clients-IsDialled (addr ∷ l) made h =
        new_clients-IsDialled l _ (go (is_text addr p.self_addr))
      where
        go :
            (b : Bool)
            → IsDialled (
                if b then made else elim (lookup addr p.clients) [
                  | some c ↦ insert addr c made
                  | none ↦ elim (new_client (dials addr) addr p.rpc_to) [
                    | none ↦ made
                    | some c ↦ insert addr c made
                  ]
                ])
        go true = h
        go false = with_known addr made _ refl h
