-- ===== src/Peers/Picks.antt =====
-- What `PickOwner` of peers.go answers.
pub mod Closed
use locache.Base.{
  ℕ, ◌<◌, ◌≡◌, ◌≢◌, ◌⊎◌, inl, inr, refl, sym, ◌∙◌, ap, subst, if_pos, if_neg, none, some, [], ◌∷◌,
  ◌++◌, Bool, true, false, if◌then◌else◌, arith,
}
use locache.Base.Words.{gt64}
use locache.Base.Str.{Str, str_dec}
use locache.Base.Map.{lookup}
use locache.ConsistentHash.{Ring, Config, rounds, with_replicas, apply_setting, apply_settings}
use locache.ConsistentHash
use locache.ConsistentHash.Owners.{get-nodes, get_unique}
use locache.ConsistentHash.Lookup.{owner_for, get-owner_for}
use locache.Peers.{
  Client, ClientPicker, nil_peer, client_peer, is_nil, Picked, picked_for, pick_owner, is_text,
  values, close,
}
use locache.Peers.Changes.{fresh_ring}
use locache.Peers.Replace.{some-none}
use locache.Peers.Invariant.{IsValid}

pick_owner_answer :
    (key owner : Str) (p : ClientPicker)
    → ConsistentHash.get key p.ring ≡ some owner
    → pick_owner key p ≡ some (picked_for p owner)
unfolding pick_owner
pick_owner_answer key owner p e = ground arith

abbrev as_self : ClientPicker → Str → Picked
as_self p owner = record {
  owner = owner;
  peer = nil_peer;
  is_self = true;
  epoch = p.epoch;
  ok = true;
}

abbrev as_other : ClientPicker → Str → Picked
as_other p owner = record {
  owner = owner;
  peer = client_peer (lookup owner p.clients);
  is_self = false;
  epoch = p.epoch;
  ok = true;
}

-- The two answers for an owner.
picked_for-cases :
    (p : ClientPicker) (b : ℕ) (name : Str)
    → (((b ∷ name) ≡ p.self_addr) × (picked_for p (b ∷ name) ≡ as_self p (b ∷ name)))
      ⊎ (((b ∷ name) ≢ p.self_addr) × (picked_for p (b ∷ name) ≡ as_other p (b ∷ name)))
unfolding picked_for
picked_for-cases p b name = elim (str_dec (b ∷ name) p.self_addr) [
  | yes e ↦ inl (e, ap chosen (if_pos (str_dec (b ∷ name) p.self_addr) e true false))
  | no ne ↦ inr (ne, ap chosen (if_neg (str_dec (b ∷ name) p.self_addr) ne true false))
]
  where
    chosen : Bool → Picked
    chosen c = if c then as_self p (b ∷ name) else as_other p (b ∷ name)

picked_for-owner : (p : ClientPicker) (owner : Str) → (picked_for p owner).owner ≡ owner
unfolding picked_for
picked_for-owner p [] = refl
picked_for-owner p (b ∷ name) = elim (picked_for-cases p b name) [
  | inl (_, e) ↦ ap (λ (k : Picked). k.owner) e
  | inr (_, e) ↦ ap (λ (k : Picked). k.owner) e
]

picked_for_self :
    (p : ClientPicker) (owner : Str) → (picked_for p owner).is_self ≡ true → owner ≡ p.self_addr
unfolding picked_for
picked_for_self p [] e = absurd (ground arith)
picked_for_self p (b ∷ name) e = elim (picked_for-cases p b name) [
  | inl (same, _) ↦ same
  | inr (_, f) ↦ absurd (not_true (sym (ap (λ (k : Picked). k.is_self) f) ∙ e))
]
  where
    not_true : ◌≡◌ {A = Bool} false true → ⊥
    not_true k = cc

-- Two pickers of one configuration with the same members name the same owner for every key, and where
-- both take themselves for it they are at one address.
pub pick_owner_agree :
    (crc : Str → ℕ) (key : Str) (p q : ClientPicker)
    → IsValid crc p
    → IsValid crc q
    → p.hash_replicas ≡ q.hash_replicas
    → ((j : Str) → lookup j p.members ≡ lookup j q.members)
    → (a b : Picked) × ((pick_owner key p ≡ some a)
        × (pick_owner key q ≡ some b)
        × (a.owner ≡ b.owner)
        × (a.is_self ≡ true → b.is_self ≡ true → p.self_addr ≡ q.self_addr))
pick_owner_agree crc key p q v w replicas members =
    let owner = owner_for key p.ring in
    let here = get-owner_for key p.ring v.is_ring.sorted in
    let there =
      sym (
        get_unique key p.ring q.ring v.is_ring w.is_ring configs
          (λ j. v.same j ∙ members j ∙ sym (w.same j)))
      ∙ here in
    (
      picked_for p owner,
      picked_for q owner,
      (
        pick_owner_answer key owner p here,
        pick_owner_answer key owner q there,
        picked_for-owner p owner ∙ sym (picked_for-owner q owner),
        (λ mine yours. sym (picked_for_self p owner mine) ∙ picked_for_self q owner yours),
      ),
    )
  where
    configs : p.ring.config ≡ q.ring.config
    configs = v.config ∙ ap (λ n. (fresh_ring crc n).config) replicas ∙ sym w.config

fresh_ring-rounds : (crc : Str → ℕ) (n : ℕ) → 0 < rounds (fresh_ring crc n).config
unfolding fresh_ring ConsistentHash.new apply_settings apply_setting rounds gt64
fresh_ring-rounds crc n = ground arith

-- What an answer for a key with an owner says.
abbrev pub IsPick : ClientPicker → Picked → Type 0
IsPick p a =
    (a.ok ≡ true)
    × (lookup a.owner p.members ≡ some tt)
    × (a.is_self ≡ is_text a.owner p.self_addr)
    × (is_nil a.peer ≡ a.is_self)
    × (a.epoch ≡ p.epoch)

picked_for-IsPick :
    (p : ClientPicker) (owner : Str)
    → lookup owner p.members ≡ some tt
    → lookup [] p.members ≡ none
    → IsPick p (picked_for p owner)
unfolding picked_for
picked_for-IsPick p [] member named = absurd (some-none (sym member ∙ named))
picked_for-IsPick p (b ∷ name) member named = elim (picked_for-cases p b name) [
  | inl (same, e) ↦
      subst (IsPick p) (sym e)
        (refl, member, sym (if_pos (str_dec (b ∷ name) p.self_addr) same true false), refl, refl)
  | inr (other, e) ↦
      subst (IsPick p) (sym e)
        (refl, member, sym (if_neg (str_dec (b ∷ name) p.self_addr) other true false), refl, refl)
]

-- Every key but the empty one has a member for its owner, and the picker says whether that is this
-- node; the peer is nil exactly where it is; and the epoch is the picker's.
pub pick_owner-IsPick :
    (crc : Str → ℕ) (b : ℕ) (key : Str) (p : ClientPicker)
    → IsValid crc p
    → (a : Picked) × ((pick_owner (b ∷ key) p ≡ some a) × IsPick p a)
pick_owner-IsPick crc b key p v =
    let (owner, (here, member)) =
      get-nodes b key p.self_addr p.ring v.is_ring (v.same p.self_addr ∙ v.self) replicas in
    (
      picked_for p owner,
      (
        pick_owner_answer (b ∷ key) owner p here,
        picked_for-IsPick p owner (sym (v.same owner) ∙ member) v.named,
      ),
    )
  where
    replicas : 0 < rounds p.ring.config
    replicas = subst (λ c. 0 < rounds c) (sym v.config) (fresh_ring-rounds crc p.hash_replicas)
