-- ===== src/Peers/Picks/Closed.antt =====
-- A picker of peers.go after its `Close`.
use locache.Base.{
  ℕ, ◌<◌, ◌≡◌, ◌⊎◌, inl, inr, sym, ◌∙◌, ap, subst, none, some, [], ◌∷◌, ◌++◌, Bool, true, false,
  arith,
}
use locache.Base.Str.{Str}
use locache.Base.Map.{lookup}
use locache.ConsistentHash.{rounds}
use locache.ConsistentHash.Owners.{get-nodes}
use locache.Peers.{
  Client, ClientPicker, client_peer, is_nil, Picked, picked_for, pick_owner, values, close,
}
use locache.Peers.Replace.{some-none}
use locache.Peers.Invariant.{IsValid}
use locache.Peers.Picks.{pick_owner_answer, picked_for-cases, picked_for-owner, fresh_ring-rounds}

abbrev shut : ClientPicker → ClientPicker
shut p = record p {
  clients = [];
  closed_clients = p.closed_clients ++ values p.clients;
  closed = true;
}

close-shut :
    (stopped : Bool) (fails : Client → Bool) (etcd_fails : Bool) (p : ClientPicker)
    → p.closed ≡ false
    → (close stopped fails etcd_fails p).0 ≡ shut p
unfolding close
close-shut stopped fails etcd_fails p opened = ground arith

-- Closing a picker keeps the invariant.
pub close-IsValid :
    (crc : Str → ℕ) (stopped : Bool) (fails : Client → Bool) (etcd_fails : Bool) (p : ClientPicker)
    → IsValid crc p
    → p.closed ≡ false
    → IsValid crc (close stopped fails etcd_fails p).0
unfolding lookup
close-IsValid crc stopped fails etcd_fails p v opened =
    subst (IsValid crc) (sym (close-shut stopped fails etcd_fails p opened)) (record {
      is_ring = v.is_ring;
      config = v.config;
      same = v.same;
      once = v.once;
      self = v.self;
      named = v.named;
      known = λ a c e. cc;
      dialled = tt;
    })

picked_for-shut :
    (p : ClientPicker) (owner : Str)
    → lookup owner p.members ≡ some tt
    → lookup [] p.members ≡ none
    → ((picked_for (shut p) owner).is_self ≡ true)
      ⊎ ((is_nil (picked_for (shut p) owner).peer ≡ false)
          × ((picked_for (shut p) owner).peer ≡ client_peer none))
unfolding lookup
picked_for-shut p [] member named = absurd (some-none (sym member ∙ named))
picked_for-shut p (b ∷ name) member named = elim (picked_for-cases (shut p) b name) [
  | inl (_, e) ↦ inl (ap (λ (k : Picked). k.is_self) e)
  | inr (_, e) ↦ inr (ap (λ (k : Picked). is_nil k.peer) e, ap (λ (k : Picked). k.peer) e)
]

-- A picker that is closed, but was not before, with or without an error, still names a member as the
-- owner of every key but the empty one; where that is not this node, the peer is not nil, but holds a
-- nil client.
pub pick_owner-close :
    (crc : Str → ℕ) (b : ℕ) (key : Str) (p : ClientPicker) (stopped : Bool) (fails : Client → Bool)
    (etcd_fails : Bool)
    → IsValid crc p
    → p.closed ≡ false
    → (a : Picked) × ((pick_owner (b ∷ key) (close stopped fails etcd_fails p).0 ≡ some a)
        × (lookup a.owner p.members ≡ some tt)
        × ((a.is_self ≡ true) ⊎ ((is_nil a.peer ≡ false) × (a.peer ≡ client_peer none))))
pick_owner-close crc b key p stopped fails etcd_fails v opened =
    let (owner, (here, member)) =
      get-nodes b key p.self_addr p.ring v.is_ring (v.same p.self_addr ∙ v.self) replicas in
    let in_members = sym (v.same owner) ∙ member in
    (
      picked_for (shut p) owner,
      (
        ap (pick_owner (b ∷ key)) (close-shut stopped fails etcd_fails p opened)
            ∙ pick_owner_answer (b ∷ key) owner (shut p) here,
        ap (λ o. lookup o p.members) (picked_for-owner (shut p) owner) ∙ in_members,
        picked_for-shut p owner in_members v.named,
      ),
    )
  where
    replicas : 0 < rounds p.ring.config
    replicas = subst (λ c. 0 < rounds c) (sym v.config) (fresh_ring-rounds crc p.hash_replicas)
