-- ===== src/Peers/Watch/Laws.antt =====
-- The life of a picker of peers.go, from its constructor over all that its watch sees.
use locache.Base.{
  ℕ, ◌≡◌, inl, inr, refl, sym, ◌∙◌, ap, subst, Option, none, some, List, [], ◌∷◌, Bool, true, ite,
  if_pos, if_neg, if◌then◌else◌, arith, Bool-cases, Option-cases,
}
use locache.Base.Words.{gt64}
use locache.Base.Str.{Str, str_dec}
use locache.Base.Map.{IsMap, lookup, lookup-insert, insert-IsMap}
use locache.ConsistentHash.{Ring, with_replicas, apply_setting, apply_settings}
use locache.ConsistentHash
use locache.ConsistentHash.Invariant.{IsRing}
use locache.ConsistentHash.Initial.{new-IsRing}
use locache.ConsistentHash.Membership.{add-IsRing, add-nodes, add-config, is_listed}
use locache.Registry.{ok}
use locache.Peers.{Client, ClientPicker}
use locache.Peers.Changes.{Kv, fresh_ring}
use locache.Peers.Replace.{fresh_ring-nodes, refresh_snapshot-IsValid}
use locache.Peers.Dialled.{IsDialled}
use locache.Peers.Invariant.{IsValid, add_member-IsValid, remove_member-IsValid}
use locache.Peers.Watch.{
  Event, put_event, delete_event, other_event, Response, Round, handle, handle_all, consume, watch,
  PickerOption, with_service_name, with_endpoints, with_dial_timeout, with_rpc_timeout,
  with_hash_replicas, apply_option, apply_options, bare_picker, with_self, new_client_picker,
  PickerResult, made,
}

module _ (crc : Str → ℕ) (dials : Str → Bool) where
  handle-IsValid : (e : Event) (p : ClientPicker) → IsValid crc p → IsValid crc (handle dials e p)
  unfolding handle
  handle-IsValid (put_event kv) p v = add_member-IsValid crc dials p v _
  handle-IsValid (delete_event key previous) p v = remove_member-IsValid crc dials p v _
  handle-IsValid other_event p v = v

  handle_all-IsValid :
      (l : List Event) (p : ClientPicker) → IsValid crc p → IsValid crc (handle_all dials l p)
  unfolding handle_all
  handle_all-IsValid [] p v = v
  handle_all-IsValid (e ∷ l) p v = handle_all-IsValid l _ (handle-IsValid e p v)

  consume-IsValid :
      (l : List Response) (st : ClientPicker × ℕ)
      → IsValid crc st.0
      → IsValid crc (consume dials l st).0
  unfolding consume
  consume-IsValid [] st v = v
  consume-IsValid (r ∷ l) (p, rev) v = elim (Bool-cases r.failed) [
    | inl broken ↦ rw (broken, consume) v
    | inr fine ↦ rw (fine, consume) (consume-IsValid l _ (handle_all-IsValid r.events p v))
  ]

  pub watch-IsValid :
      (l : List Round) (st : ClientPicker × ℕ)
      → IsValid crc st.0
      → IsValid crc (watch crc dials l st).0
  unfolding watch
  watch-IsValid [] st v = v
  watch-IsValid (round ∷ l) st v = elim (Bool-cases round.cancelled) [
    | inl over ↦ rw (over, watch) (consume-IsValid round.responses st v)
    | inr goes ↦ elim (Option-cases round.snapshot) [
      | inl silent ↦
          rw (goes, silent, watch) (watch-IsValid l _ (consume-IsValid round.responses st v))
      | inr ((kvs, revision), answer) ↦
          rw (goes, answer, watch)
            (watch-IsValid l _ (
              refresh_snapshot-IsValid crc dials kvs revision _
                (consume-IsValid round.responses st v)))
    ]
  ]

-- A picker that is being made for an address: no members and no clients yet.
record IsBare (crc : Str → ℕ) (self : Str) (p : ClientPicker) : Type 0 where
  ring : p.ring ≡ fresh_ring crc p.hash_replicas
  members : p.members ≡ []
  clients : p.clients ≡ []
  at : p.self_addr ≡ self

apply_option-IsBare :
    (crc : Str → ℕ) (self : Str) (o : PickerOption) (p : ClientPicker)
    → IsBare crc self p
    → IsBare crc self (apply_option crc o p)
unfolding apply_option
apply_option-IsBare crc self (with_service_name []) p v = v
apply_option-IsBare crc self (with_service_name (b ∷ name)) p v = record {
  ring = v.ring;
  members = v.members;
  clients = v.clients;
  at = v.at;
}
apply_option-IsBare crc self (with_endpoints []) p v = v
apply_option-IsBare crc self (with_endpoints (e ∷ l)) p v = record {
  ring = v.ring;
  members = v.members;
  clients = v.clients;
  at = v.at;
}
apply_option-IsBare crc self (with_dial_timeout t) p v = elim (Bool-cases (gt64 t 0)) [
  | inl yes_it ↦
      rw (yes_it, apply_option)
        (record { ring = v.ring; members = v.members; clients = v.clients; at = v.at })
  | inr no_it ↦ rw (no_it, apply_option) v
]
apply_option-IsBare crc self (with_rpc_timeout t) p v = elim (Bool-cases (gt64 t 0)) [
  | inl yes_it ↦
      rw (yes_it, apply_option)
        (record { ring = v.ring; members = v.members; clients = v.clients; at = v.at })
  | inr no_it ↦ rw (no_it, apply_option) v
]
apply_option-IsBare crc self (with_hash_replicas n) p v = elim (Bool-cases (gt64 n 0)) [
  | inl yes_it ↦
      rw (yes_it, apply_option)
        (record { ring = refl; members = v.members; clients = v.clients; at = v.at })
  | inr no_it ↦ rw (no_it, apply_option) v
]

apply_options-IsBare :
    (crc : Str → ℕ) (self : Str) (l : List PickerOption) (p : ClientPicker)
    → IsBare crc self p
    → IsBare crc self (apply_options crc l p)
unfolding apply_options
apply_options-IsBare crc self [] p v = v
apply_options-IsBare crc self (o ∷ l) p v =
    apply_options-IsBare crc self l _ (apply_option-IsBare crc self o p v)

fresh_ring-IsRing : (crc : Str → ℕ) (replicas : ℕ) → IsRing (fresh_ring crc replicas)
unfolding fresh_ring
fresh_ring-IsRing crc replicas = new-IsRing crc (with_replicas replicas ∷ [])

bare_picker-IsBare : (crc : Str → ℕ) (self : Str) → IsBare crc self (bare_picker crc self)
unfolding bare_picker fresh_ring ConsistentHash.new apply_settings apply_setting gt64
bare_picker-IsBare crc self = record { ring = refl; members = refl; clients = refl; at = refl }

with_self-IsValid :
    (crc : Str → ℕ) (b : ℕ) (name : Str) (p : ClientPicker)
    → IsBare crc (b ∷ name) p
    → IsValid crc (with_self p)
unfolding with_self lookup
with_self-IsValid crc b name p v = record {
  is_ring =
      add-IsRing (p.self_addr ∷ []) p.ring
        (subst IsRing (sym v.ring) (fresh_ring-IsRing crc p.hash_replicas));
  config = add-config (p.self_addr ∷ []) p.ring ∙ ap (λ (r : Ring). r.config) v.ring;
  same = λ j.
      add-nodes (p.self_addr ∷ []) p.ring j
      ∙ ap (λ s. if is_listed j (s ∷ []) then some tt else lookup j p.ring.nodes) v.at
      ∙ ground (arith, no_nodes j, no_members j)
      ∙ ap (λ s. ite (str_dec s j) (some tt) (lookup j p.members)) (sym v.at)
      ∙ sym (lookup-insert j p.self_addr tt p.members);
  once = insert-IsMap p.self_addr tt p.members (subst IsMap (sym v.members) tt);
  self =
      lookup-insert p.self_addr p.self_addr tt p.members
      ∙ if_pos (str_dec p.self_addr p.self_addr) refl (some tt) (lookup p.self_addr p.members);
  named =
      lookup-insert [] p.self_addr tt p.members
      ∙ if_neg (str_dec p.self_addr []) (λ e. full (sym v.at ∙ e)) (some tt) (lookup [] p.members)
      ∙ no_members [];
  known = λ a c e. absurd (no_client (sym (ap (lookup a) v.clients) ∙ e));
  dialled = subst IsDialled (sym v.clients) tt;
}
  where
    no_members : (j : Str) → lookup j p.members ≡ none
    no_members j = ap (lookup j) v.members

    no_nodes : (j : Str) → lookup j p.ring.nodes ≡ none
    no_nodes j = ap (λ (r : Ring). lookup j r.nodes) v.ring ∙ fresh_ring-nodes crc p.hash_replicas j

    full : ◌≡◌ {A = Str} (b ∷ name) [] → ⊥
    full e = cc

    no_client : {c : Client} → ◌≡◌ {A = Option Client} none (some c) → ⊥
    no_client e = cc

-- A picker that `NewClientPicker` gives for an address has a well-formed ring over exactly its members,
-- and clients of other members only, each under its address, whatever its watch has seen since: after
-- every number of rounds of events and snapshots, failed watches and silent fetches included.
pub watch-new_client_picker :
    (crc : Str → ℕ) (dials : Str → Bool) (b : ℕ) (name : Str) (snapshot : Option (List Kv × ℕ))
    (options : List PickerOption) (st : ClientPicker × ℕ) (l : List Round)
    → new_client_picker crc dials (ok (b ∷ name)) true snapshot options ≡ made st
    → IsValid crc (watch crc dials l st).0
unfolding new_client_picker
watch-new_client_picker crc dials b name none options st l e = absurd (ground arith)
watch-new_client_picker crc dials b name (some (kvs, revision)) options st l e =
    watch-IsValid crc dials l st (
      subst (λ (o : ClientPicker × ℕ). IsValid crc o.0) (made_inj e)
        (refresh_snapshot-IsValid crc dials kvs revision _ (
          with_self-IsValid crc b name _
            (apply_options-IsBare crc (b ∷ name) options _ (bare_picker-IsBare crc (b ∷ name))))))
  where
    made_inj : {x y : ClientPicker × ℕ} → ◌≡◌ {A = PickerResult} (made x) (made y) → x ≡ y
    made_inj k = cc
