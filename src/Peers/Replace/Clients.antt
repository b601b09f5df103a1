-- ===== src/Peers/Replace/Clients.antt =====
-- The clients that `replaceMembership` of peers.go makes.
use locache.Base.{
  ◌≡◌, ◌≢◌, sym, ◌∙◌, ap, subst, Option, none, some, List, [], ◌∷◌, Bool, true, false, if_pos,
  if_neg, if◌then◌else◌, All,
}
use locache.Base.Str.{Str, str_dec}
use locache.Base.Map.{Map, IsMap, lookup, insert, lookup-insert}
use locache.Peers.{Client, ClientPicker, new_client, is_text}
use locache.Peers.Changes.{new_clients}
use locache.Peers.Members.{Members}

-- What `replaceMembership` may be called with for a picker: this node is a member, and the empty text
-- is not.
pub record IsDesired (self : Str) (desired : Members) : Type 0 where
  pub once : IsMap desired
  pub self_in : lookup self desired ≡ some tt
  pub named : lookup [] desired ≡ none

-- Clients of members other than this node.
abbrev IsKnown : Str → Members → Map Client → Type 0
IsKnown self desired clients =
    (a : Str) (c : Client) → lookup a clients ≡ some c → (lookup a desired ≡ some tt) × (a ≢ self)

insert-IsKnown :
    (self : Str) (desired : Members) (addr : Str) (client : Client) (clients : Map Client)
    → lookup addr desired ≡ some tt
    → addr ≢ self
    → IsKnown self desired clients
    → IsKnown self desired (insert addr client clients)
insert-IsKnown self desired addr client clients member other known a c e = elim (str_dec addr a) [
  | yes same ↦ (ap (λ k. lookup k desired) (sym same) ∙ member, (λ k. other (same ∙ k)))
  | no ne ↦ known a c (
      sym (if_neg (str_dec addr a) ne (some client) (lookup a clients))
      ∙ sym (lookup-insert a addr client clients)
      ∙ e)
]

module _ (dials : Str → Bool) (p : ClientPicker) (desired : Members) where
  -- The clients after one round of the loop.
  abbrev step : Str → Map Client → Map Client
  step addr made = if is_text addr p.self_addr then made else elim (lookup addr p.clients) [
    | some existing ↦ insert addr existing made
    | none ↦ elim (new_client (dials addr) addr p.rpc_to) [
      | none ↦ made
      | some client ↦ insert addr client made
    ]
  ]

  step-IsKnown :
      (addr : Str) (made : Map Client)
      → lookup addr desired ≡ some tt
      → IsKnown p.self_addr desired made
      → IsKnown p.self_addr desired (step addr made)
  step-IsKnown addr made member known = elim (str_dec addr p.self_addr) [
    | yes e ↦ subst Known (sym (ap tested (if_pos (str_dec addr p.self_addr) e true false))) known
    | no ne ↦
        subst Known (sym (ap tested (if_neg (str_dec addr p.self_addr) ne true false)))
          (others ne (lookup addr p.clients) (new_client (dials addr) addr p.rpc_to))
  ]
    where
      Known : Map Client → Type 0
      Known = IsKnown p.self_addr desired

      tested : Bool → Map Client
      tested b = if b then made else elim (lookup addr p.clients) [
        | some existing ↦ insert addr existing made
        | none ↦ elim (new_client (dials addr) addr p.rpc_to) [
          | none ↦ made
          | some client ↦ insert addr client made
        ]
      ]

      others :
          addr ≢ p.self_addr
          → (o n : Option Client)
          → Known (elim o [
            | some existing ↦ insert addr existing made
            | none ↦ elim n [ none ↦ made | some client ↦ insert addr client made ]
          ])
      others ne (some existing) n =
          insert-IsKnown p.self_addr desired addr existing made member ne known
      others ne none none = known
      others ne none (some client) =
          insert-IsKnown p.self_addr desired addr client made member ne known

  pub new_clients-IsKnown :
      (l : List Str) (made : Map Client)
      → All (λ a. lookup a desired ≡ some tt) l
      → IsKnown p.self_addr desired made
      → IsKnown p.self_addr desired (new_clients dials p l made)
  unfolding new_clients
  new_clients-IsKnown [] made h known = known
  new_clients-IsKnown (addr ∷ l) made h known =
      new_clients-IsKnown l (step addr made) h.1 (step-IsKnown addr made h.0 known)
