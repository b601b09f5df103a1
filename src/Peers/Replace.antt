-- ===== src/Peers/Replace.antt =====
-- `replaceMembership` of peers.go, and the snapshots that it is called with.
pub mod Clients
use locache.Base.{
  ℕ, ◌≡◌, ◌≢◌, ◌⊎◌, inl, inr, refl, sym, ◌∙◌, ap, subst, Option, none, some, List, [], ◌∷◌, ◌++◌,
  Bool, true, false, not, ◌&&◌, ◌||◌, if_pos, if_neg, if◌then◌else◌, arith, All, Bool-cases,
}
use locache.Base.Words.{add64, gt64}
use locache.Base.Str.{Str, str_dec}
use locache.Base.Map.{Map, IsMap, lookup, insert, lookup-insert, insert-IsMap}
use locache.ConsistentHash.{Ring, Config, with_replicas, apply_setting, apply_settings}
use locache.ConsistentHash
use locache.ConsistentHash.Initial.{new-IsRing}
use locache.ConsistentHash.Membership.{add-IsRing, add-nodes, add-config}
use locache.Peers.{Client, ClientPicker, new_client, sorted_keys, is_absent, is_text, is_empty}
use locache.Peers.Changes.{
  fresh_ring, new_clients, dropped, same_members, replace_membership, Kv, addr_of_kv,
  desired_members, refresh_snapshot,
}
use locache.Peers.Members.{Members, sorted_keys-All, is_listed-sorted_keys, same_members_lem}
use locache.Peers.Dialled.{new_clients-IsDialled}
use locache.Peers.Invariant.{IsValid}
use locache.Peers.Replace.Clients.{IsDesired, new_clients-IsKnown}

pub fresh_ring-nodes :
    (crc : Str → ℕ) (replicas : ℕ) (j : Str) → lookup j (fresh_ring crc replicas).nodes ≡ none
unfolding fresh_ring ConsistentHash.new apply_settings apply_setting lookup
fresh_ring-nodes crc replicas j = elim (Bool-cases (gt64 replicas 0)) [
  | inl positive ↦ ap (λ b. lookup j (chosen b).nodes) positive
  | inr other ↦ ap (λ b. lookup j (chosen b).nodes) other
]
  where
    start : Ring
    start = record { config = record { replicas = 100; hash_func = crc }; points = []; nodes = [] }

    chosen : Bool → Ring
    chosen b =
        if b then record start { config = record (start.config) { replicas = replicas } } else start

module _ (crc : Str → ℕ) (dials : Str → Bool) (p : ClientPicker) (v : IsValid crc p)
    (desired : Members) (d : IsDesired p.self_addr desired) where
  abbrev new_ring : Ring
  new_ring = (ConsistentHash.add (sorted_keys desired) (fresh_ring crc p.hash_replicas)).0

  abbrev replaced : ClientPicker
  replaced =
      let clients = new_clients dials p (sorted_keys desired) [] in
      record p {
        members = desired;
        clients = clients;
        ring = new_ring;
        epoch = add64 p.epoch 1;
        closed_clients = p.closed_clients ++ dropped p.clients clients;
      }

  -- The two outcomes of `replaceMembership`.
  pub replace_membership-cases :
      ((replace_membership crc dials desired p ≡ p)
        × ((j : Str) → lookup j p.members ≡ lookup j desired))
      ⊎ (replace_membership crc dials desired p ≡ replaced)
  unfolding replace_membership
  replace_membership-cases = elim (Bool-cases (same_members p.members desired)) [
    | inl same ↦ inl (
      ap (λ b. if b then p else replaced) same,
      same_members_lem p.members desired v.once d.once same,
    )
    | inr differs ↦ inr (ap (λ b. if b then p else replaced) differs)
  ]

  new_ring-nodes : (j : Str) → lookup j new_ring.nodes ≡ lookup j desired
  new_ring-nodes j =
      add-nodes (sorted_keys desired) (fresh_ring crc p.hash_replicas) j
      ∙ ap (λ b. if b then some tt else lookup j (fresh_ring crc p.hash_replicas).nodes)
          (is_listed-sorted_keys desired j d.named)
      ∙ by_presence (lookup j desired)
      ∙ refl
    where
      by_presence :
          (o : Option (Unit {0}))
          → (if not (is_absent o) then some tt else lookup j (fresh_ring crc p.hash_replicas).nodes)
            ≡ o
      by_presence none = fresh_ring-nodes crc p.hash_replicas j
      by_presence (some u) = refl

  replaced-IsValid : IsValid crc replaced
  unfolding lookup fresh_ring
  replaced-IsValid = record {
    is_ring =
        add-IsRing (sorted_keys desired) (fresh_ring crc p.hash_replicas)
          (new-IsRing crc (with_replicas p.hash_replicas ∷ []));
    config = add-config (sorted_keys desired) (fresh_ring crc p.hash_replicas);
    same = new_ring-nodes;
    once = d.once;
    self = d.self_in;
    named = d.named;
    known =
        new_clients-IsKnown dials p desired (sorted_keys desired) [] (sorted_keys-All desired)
          (λ a c e. cc);
    dialled = new_clients-IsDialled dials p v.dialled (sorted_keys desired) [] tt;
  }

  -- A replacement of the members keeps the invariant.
  pub replace_membership-IsValid : IsValid crc (replace_membership crc dials desired p)
  replace_membership-IsValid = elim replace_membership-cases [
    | inl (same, _) ↦ subst (IsValid crc) (sym same) v
    | inr new_one ↦ subst (IsValid crc) (sym new_one) replaced-IsValid
  ]

  -- After a replacement the members are the desired ones, also where nothing is done.
  pub replace_membership-members :
      (j : Str) → lookup j (replace_membership crc dials desired p).members ≡ lookup j desired
  replace_membership-members j = elim replace_membership-cases [
    | inl (same, agree) ↦ ap (λ (q : ClientPicker). lookup j q.members) same ∙ agree j
    | inr new_one ↦ ap (λ (q : ClientPicker). lookup j q.members) new_one
  ]

-- The members that a snapshot names are fit for a replacement.
desired_members-IsDesired :
    (self svc_name : Str) (kvs : List Kv) (desired : Members)
    → IsDesired self desired
    → IsDesired self (desired_members svc_name kvs desired)
unfolding desired_members
desired_members-IsDesired self svc_name [] desired d = d
desired_members-IsDesired self svc_name (kv ∷ rest) desired d =
    desired_members-IsDesired self svc_name rest _ (go (addr_of_kv svc_name kv))
  where
    go : (addr : Str) → IsDesired self (if is_empty addr then desired else insert addr tt desired)
    go [] = d
    go (b ∷ addr) = record {
      once = insert-IsMap (b ∷ addr) tt desired d.once;
      self_in = ground (arith, lookup-insert self (b ∷ addr) tt desired, d.self_in);
      named = ground (arith, lookup-insert [] (b ∷ addr) tt desired, d.named);
    }

own-IsDesired : (self : Str) → self ≢ [] → IsDesired self ((self, tt) ∷ [])
unfolding lookup
own-IsDesired self full = record {
  once = (refl, tt);
  self_in = if_pos (str_dec self self) refl (some tt) none;
  named = if_neg (str_dec self []) full (some tt) none;
}

pub some-none : ◌≡◌ {A = Option (Unit {0})} (some tt) none → ⊥
some-none e = cc

-- The address of this node is not empty.
self_full : (crc : Str → ℕ) (p : ClientPicker) → IsValid crc p → p.self_addr ≢ []
self_full crc p v e = some-none (sym v.self ∙ ap (λ a. lookup a p.members) e ∙ v.named)

-- A refresh from a snapshot keeps the invariant.
pub refresh_snapshot-IsValid :
    (crc : Str → ℕ) (dials : Str → Bool) (kvs : List Kv) (revision : ℕ) (p : ClientPicker)
    → IsValid crc p
    → IsValid crc (refresh_snapshot crc dials (kvs, revision) p).0
unfolding refresh_snapshot
refresh_snapshot-IsValid crc dials kvs revision p v = replace_membership-IsValid crc dials p v _ (
    desired_members-IsDesired p.self_addr p.svc_name kvs _
      (own-IsDesired p.self_addr (self_full crc p v)))

-- Whether a snapshot names an address.
abbrev pub is_named : Str → Str → List Kv → Bool
is_named svc_name j [] = false
is_named svc_name j (kv ∷ rest) =
    is_named svc_name j rest || (not (is_empty j) && is_text (addr_of_kv svc_name kv) j)

desired_members-lookup :
    (svc_name : Str) (kvs : List Kv) (desired : Members) (j : Str)
    → lookup j (desired_members svc_name kvs desired)
      ≡ (if is_named svc_name j kvs then some tt else lookup j desired)
unfolding desired_members
desired_members-lookup svc_name [] desired j = refl
desired_members-lookup svc_name (kv ∷ rest) desired j =
    desired_members-lookup svc_name rest _ j
    ∙ go (is_named svc_name j rest) (addr_of_kv svc_name kv) j
  where
    go :
        (b : Bool) (addr k : Str)
        → (if b
            then some tt
            else lookup k (if is_empty addr then desired else insert addr tt desired))
          ≡ (if b || (not (is_empty k) && is_text addr k) then some tt else lookup k desired)
    go true addr k = refl
    go false [] [] = refl
    go false [] (c ∷ k) = ground arith
    go false (b ∷ addr) [] = ground (arith, lookup-insert [] (b ∷ addr) tt desired)
    go false (b ∷ addr) (c ∷ k) = ground (arith, lookup-insert (c ∷ k) (b ∷ addr) tt desired)

-- After a refresh the members are this node and those that the snapshot names.
pub refresh_snapshot-members :
    (crc : Str → ℕ) (dials : Str → Bool) (kvs : List Kv) (revision : ℕ) (p : ClientPicker)
    → IsValid crc p
    → (j : Str)
    → lookup j (refresh_snapshot crc dials (kvs, revision) p).0.members
      ≡ (if is_named p.svc_name j kvs || is_text p.self_addr j then some tt else none)
unfolding refresh_snapshot lookup
refresh_snapshot-members crc dials kvs revision p v j =
    replace_membership-members crc dials p v _
      (desired_members-IsDesired p.self_addr p.svc_name kvs _
        (own-IsDesired p.self_addr (self_full crc p v)))
      j
    ∙ desired_members-lookup p.svc_name kvs ((p.self_addr, tt) ∷ []) j
    ∙ ground arith
